-- ===== src/Installer/Start.antt =====
-- What a session that was initialised starts from, and what its calls leave alone.
use stm32_security_lab.Common.{
  ℕ, ◌≤◌, ◌<◌, ◌≡◌, ◌≢◌, refl, sym, ap, subst, ◌∙◌, ◌⊎◌, inl, inr, none, some, Option-cases, List,
  arith, done, fail, Result-cases, Bool-cases,
}
use stm32_security_lab.Flash.{Flash, boot_flash_init}
use stm32_security_lab.Flash.Device.{Backed}
use stm32_security_lab.Flash.Safety.{Outside}
use stm32_security_lab.Slot.{SlotDescriptor, boot_slot_lookup}
use stm32_security_lab.Slot.Geometry.{lookup-IsWellPlaced, lookup_disjoint}
use stm32_security_lab.Image.Verify.{Crypto}
use stm32_security_lab.Image.Sound.{then-inv, bind-inv, guard-inv, done-inv}
use stm32_security_lab.Metadata.{Record, MetadataStatus}
use stm32_security_lab.Metadata.Codec.{Recovery}
use stm32_security_lab.Metadata.Journal.{boot_metadata_recover_from_flash}
use stm32_security_lab.Metadata.Recovery.{recover_from_flash-keeps}
use stm32_security_lab.Metadata.Frame.{OffJournal}
use stm32_security_lab.Installer.{
  InstallStatus, InstallOptions, options_are_valid, check_start_state, lookup_slot, other_slot,
  select_inactive_slot, select_recovery_slot, init_restricted_flash, restricted_regions,
}
use stm32_security_lab.Installer.Session.{Session}
use stm32_security_lab.Installer.Run.{
  Start, start_of, normal_start, bootstrap_start, may_bootstrap, initialized_session,
  update_installer_session_init,
}
use stm32_security_lab.Installer.Confined.{Guard}
use stm32_security_lab.Installer.Calls.{Call, run_calls, run_calls_kept}

lookup_slot-inv :
    (i : ℕ) (s : SlotDescriptor) → lookup_slot i ≡ done s → boot_slot_lookup i ≡ some s
lookup_slot-inv i s h = elim (Option-cases (boot_slot_lookup i)) [
  | inl e ↦ absurd (ground (arith, e, h))
  | inr (t, e) ↦ ground (arith, e, h)
]

other_slot_differs : (i : ℕ) → other_slot i ≢ i
other_slot_differs i = ground arith

-- The active slot and the candidate are two different slots.
select_inactive-inv :
    (r : Record) (active candidate : SlotDescriptor)
    → select_inactive_slot r ≡ done (active, candidate)
    → (boot_slot_lookup r.active_slot ≡ some active)
      × (boot_slot_lookup (other_slot r.active_slot) ≡ some candidate)
unfolding select_inactive_slot
select_inactive-inv r active candidate h =
    let (checked, h1) = then-inv (check_start_state r) _ _ h in
    let (a, ha, h2) = bind-inv (lookup_slot r.active_slot) _ _ h1 in
    let (c, hc, h3) = bind-inv (lookup_slot (other_slot r.active_slot)) _ _ h2 in
    let (_, h4) = guard-inv _ _ _ _ h3 in
    let same = done-inv (a, c) (active, candidate) h4 in
    (
      lookup_slot-inv _ _ ha ∙ ap (λ p. some p.0) same,
      lookup_slot-inv _ _ hc ∙ ap (λ p. some p.1) same,
    )

-- The slots of a start: the candidate is one of the two, and an active slot is the other one.
pub record IsChosen (start : Start) : Type 0 where
  pub candidate_id : ℕ
  pub candidate_found : boot_slot_lookup candidate_id ≡ some start.candidate
  pub active_is_other :
      (start.active ≡ none)
      ⊎ ((a : SlotDescriptor) × (i : ℕ) × (start.active ≡ some a)
          × (boot_slot_lookup i ≡ some a)
          × (candidate_id ≢ i))

normal_start-IsChosen :
    (current : Record) (recovery : Recovery) (start : Start)
    → normal_start current recovery ≡ done start
    → IsChosen start
unfolding normal_start
normal_start-IsChosen current recovery start h =
    elim (Result-cases (select_inactive_slot current)) [
      | inr (e, f) ↦ absurd (ground (arith, f, h))
      | inl ((a, c), e) ↦
          let same =
            done-inv
              (record { current = current; recovery = recovery; active = some a; candidate = c })
              start (rw (e, normal_start) at h) in
          let (fa, fc) = select_inactive-inv current a c e in
          record {
            candidate_id = other_slot current.active_slot;
            candidate_found = fc ∙ ap (λ s. some s.candidate) same;
            active_is_other =
                inr
                  (a, current.active_slot, sym (ap (λ s. s.active) same), fa, other_slot_differs _);
          }
    ]

bootstrap_start-IsChosen :
    (options : InstallOptions) (status : MetadataStatus) (start : Start)
    → bootstrap_start options status ≡ done start
    → IsChosen start
unfolding bootstrap_start select_recovery_slot boot_slot_lookup
bootstrap_start-IsChosen options status start h = elim (Bool-cases (may_bootstrap options status)) [
  | inr refused ↦ absurd (ground (arith, refused, h))
  | inl allowed ↦
      let same = done-inv _ start (rw (allowed, bootstrap_start) at h) in
      record {
        candidate_id = 0;
        candidate_found = ap (λ s. some s.candidate) same;
        active_is_other = inl (sym (ap (λ s. s.active) same));
      }
]

start_of-IsChosen :
    (options : InstallOptions) (status : MetadataStatus) (current : Record) (recovery : Recovery)
    (start : Start)
    → start_of options status current recovery ≡ done start
    → IsChosen start
unfolding start_of
start_of-IsChosen options MetadataStatus.ok current recovery start h =
    normal_start-IsChosen current recovery start h
start_of-IsChosen options status current recovery start h =
    bootstrap_start-IsChosen options status start h

restricted-inv :
    {D : Type 0} (flash restricted : Flash D) (candidate : SlotDescriptor)
    → init_restricted_flash flash candidate ≡ done restricted
    → (restricted.ops ≡ flash.ops) × (restricted.write_regions ≡ restricted_regions candidate)
unfolding init_restricted_flash boot_flash_init
restricted-inv flash restricted candidate h = ground (arith, h)

-- What a successful initialisation has established.
pub record IsStarted {D : Type 0} (flash : Flash D) (s : Session D) : Type 0 where
  pub start : Start
  pub chosen : IsChosen start
  pub restricted : Flash D
  pub restricted_is : init_restricted_flash flash start.candidate ≡ done restricted
  pub session_is : s.restricted_flash ≡ restricted
  pub candidate_is : s.candidate ≡ start.candidate
  pub active_is : s.active ≡ start.active

-- No refusal carries the status OK.
select_refuses :
    (r : Record) (e : InstallStatus) → select_inactive_slot r ≡ fail e → e ≢ InstallStatus.ok
unfolding select_inactive_slot check_start_state
select_refuses r e h = ground (arith, h)

normal_refuses :
    (current : Record) (recovery : Recovery) (e : InstallStatus)
    → normal_start current recovery ≡ fail e
    → e ≢ InstallStatus.ok
unfolding normal_start
normal_refuses current recovery e h = elim (Result-cases (select_inactive_slot current)) [
  | inl (p, f) ↦ absurd (ground (arith, f, h))
  | inr (e', f) ↦ ground (arith, f, h, select_refuses current e' f)
]

bootstrap_refuses :
    (options : InstallOptions) (status : MetadataStatus) (e : InstallStatus)
    → bootstrap_start options status ≡ fail e
    → e ≢ InstallStatus.ok
unfolding bootstrap_start select_recovery_slot boot_slot_lookup
bootstrap_refuses options status e h = ground (arith, h)

start_refuses :
    (options : InstallOptions) (status : MetadataStatus) (current : Record) (recovery : Recovery)
    (e : InstallStatus)
    → start_of options status current recovery ≡ fail e
    → e ≢ InstallStatus.ok
unfolding start_of
start_refuses options MetadataStatus.ok current recovery e h = normal_refuses current recovery e h
start_refuses options status current recovery e h = bootstrap_refuses options status e h

restricted_refuses :
    {D : Type 0} (flash : Flash D) (candidate : SlotDescriptor) (e : InstallStatus)
    → init_restricted_flash flash candidate ≡ fail e
    → e ≢ InstallStatus.ok
unfolding init_restricted_flash
restricted_refuses flash candidate e h = ground (arith, h)

init_continues :
    {D : Type 0} (flash : Flash D) (key : List ℕ) (options : InstallOptions) (d : D)
    → (update_installer_session_init flash key options d).0 ≡ InstallStatus.ok
    → let got = boot_metadata_recover_from_flash flash d in
      (start : Start) × (restricted : Flash D) × (start_of options got.0 got.1 got.2 ≡ done start)
      × (init_restricted_flash flash start.candidate ≡ done restricted)
      × (update_installer_session_init flash key options d
          ≡ (InstallStatus.ok, initialized_session flash restricted key options start, got.3))
unfolding update_installer_session_init
init_continues flash key options d h =
    let got = boot_metadata_recover_from_flash flash d in
    elim (Bool-cases (options_are_valid flash.program_alignment options)) [
      | inr bad ↦ absurd (ground (arith, bad, h))
      | inl good ↦ elim (Result-cases (start_of options got.0 got.1 got.2)) [
        | inr (_, e) ↦ absurd (start_refuses options got.0 got.1 got.2 _ e (rw (good, e) at h))
        | inl (start, e) ↦ elim (Result-cases (init_restricted_flash flash start.candidate)) [
          | inr (_, f) ↦
              absurd (restricted_refuses flash start.candidate _ f (rw (good, e, f) at h))
          | inl (restricted, f) ↦ (start, restricted, e, f, rw (good, e, f) refl)
        ]
      ]
    ]

session_init-inv :
    {D : Type 0} (flash : Flash D) (key : List ℕ) (options : InstallOptions) (d d' : D)
    (s : Session D)
    → update_installer_session_init flash key options d ≡ (InstallStatus.ok, s, d')
    → IsStarted flash s × (d' ≡ (boot_metadata_recover_from_flash flash d).3)
unfolding initialized_session
session_init-inv flash key options d d' s h =
    let got = boot_metadata_recover_from_flash flash d in
    let (start, restricted, e, f, same) = init_continues flash key options d (ap (λ r. r.0) h) in
    let session = sym (ap (λ r. r.1) h) ∙ ap (λ r. r.1) same in
    (
      record {
        start = start;
        chosen = start_of-IsChosen options got.0 got.1 got.2 start e;
        restricted = restricted;
        restricted_is = f;
        session_is = ap (λ t. t.restricted_flash) session;
        candidate_is = ap (λ t. t.candidate) session;
        active_is = ap (λ t. t.active) session;
      },
      sym (ap (λ r. r.2) h) ∙ ap (λ r. r.2) same,
    )

slot-OffJournal :
    (i : ℕ) (a : SlotDescriptor) (x : ℕ)
    → boot_slot_lookup i ≡ some a
    → a.signed_image_base ≤ x
    → x < a.slot_end
    → OffJournal x
slot-OffJournal i a x found low high =
    inr (omega (arith, (lookup-IsWellPlaced i a found).2.after_metadata, low))

apart_slots :
    (c a : SlotDescriptor) (x : ℕ)
    → (c.slot_end ≤ a.signed_image_base) ⊎ (a.slot_end ≤ c.signed_image_base)
    → a.signed_image_base ≤ x
    → x < a.slot_end
    → (x < c.signed_image_base) ⊎ (c.slot_end ≤ x)
apart_slots c a x apart low high = ground arith

restricted-Outside :
    (c : SlotDescriptor) (x : ℕ)
    → OffJournal x
    → (x < c.signed_image_base) ⊎ (c.slot_end ≤ x)
    → Outside (restricted_regions c) x
restricted-Outside c x off out = (ground arith, (ground arith, (out, tt)))

module _ {D : Type 0} (crypto : Crypto) (memory : D → ℕ → List ℕ) where
  -- From a session that started, no sequence of calls, whatever they return, changes a byte outside the journal's sectors and the candidate slot.
  pub calls_confined :
      (flash : Flash D) (mem : D → ℕ → ℕ) (backed : Backed flash.ops mem) (key : List ℕ)
      (options : InstallOptions) (d d' : D) (s : Session D) (calls : List Call) (x : ℕ)
      → update_installer_session_init flash key options d ≡ (InstallStatus.ok, s, d')
      → OffJournal x
      → (x < s.candidate.signed_image_base) ⊎ (s.candidate.slot_end ≤ x)
      → mem (run_calls crypto memory calls (s, d')).1 x ≡ mem d x
  calls_confined flash mem backed key options d d' s calls x h off out =
      let (started, device) = session_init-inv flash key options d d' s h in
      let (ops, regions) =
        restricted-inv flash started.restricted started.start.candidate started.restricted_is in
      let outside : Outside started.restricted.write_regions x =
        subst (λ r. Outside r x) (sym regions)
          (restricted-Outside started.start.candidate x off
            (subst (λ c. (x < c.signed_image_base) ⊎ (c.slot_end ≤ x)) started.candidate_is out)) in
      let guard : Guard D = record {
        flash = started.restricted;
        mem = mem;
        backed = subst (λ o. Backed o mem) (sym ops) backed;
        x = x;
        out = outside;
        off = off;
      } in
      run_calls_kept crypto memory guard calls (s, d') started.session_is
      ∙ ap (λ e. mem e x) device
      ∙ ap (λ m. m x) (recover_from_flash-keeps flash mem backed d)

  -- From a session that started with an active slot, no sequence of calls, whatever they return, changes a byte of the active slot.
  pub active_slot_kept :
      (flash : Flash D) (mem : D → ℕ → ℕ) (backed : Backed flash.ops mem) (key : List ℕ)
      (options : InstallOptions) (d d' : D) (s : Session D) (a : SlotDescriptor) (calls : List Call)
      (x : ℕ)
      → update_installer_session_init flash key options d ≡ (InstallStatus.ok, s, d')
      → s.active ≡ some a
      → a.signed_image_base ≤ x
      → x < a.slot_end
      → mem (run_calls crypto memory calls (s, d')).1 x ≡ mem d x
  active_slot_kept flash mem backed key options d d' s a calls x h active low high =
      let (started, device) = session_init-inv flash key options d d' s h in
      elim started.chosen.active_is_other [
        | inl missing ↦ absurd (ground (arith, missing, active, started.active_is))
        | inr (b, i, is_b, found, differ) ↦
            let same : some a ≡ some b = sym active ∙ started.active_is ∙ is_b in
            let known : boot_slot_lookup i ≡ some a = found ∙ sym same in
            let apart =
              lookup_disjoint started.chosen.candidate_id i started.start.candidate a
                started.chosen.candidate_found known differ in
            calls_confined flash mem backed key options d d' s calls x h
              (slot-OffJournal i a x known low high)
              (subst (λ c. (x < c.signed_image_base) ⊎ (c.slot_end ≤ x)) (sym started.candidate_is)
                (apart_slots started.start.candidate a x apart low high))
      ]
