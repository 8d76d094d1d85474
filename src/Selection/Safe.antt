-- ===== src/Selection/Safe.antt =====
-- Stage 0 boots verified slots only.
use stm32_security_lab.Common.{
  ℕ, ◌≡◌, ◌≢◌, ◌⊎◌, inl, inr, refl, sym, ap, ◌∙◌, some, arith, done, Option-cases, Result-cases,
}
use stm32_security_lab.Slot.{SlotDescriptor, boot_slot_lookup}
use stm32_security_lab.Slot.Geometry.{lookup-IsWellPlaced}
use stm32_security_lab.Image.Manifest.{VerifyStatus}
use stm32_security_lab.Image.Verify.{JumpContext}
use stm32_security_lab.Metadata.{State, Record}
use stm32_security_lab.Metadata.Journal.{boot_metadata_recover_from_flash}
use stm32_security_lab.Selection.{
  Status, Decision, FaultPoint, Selection, Options, verify_slot, commit_next, select_confirmed_slot,
  fallback_for, attempts_exhausted, candidate_verify_failed, trial_record, fallback_to_confirmed,
  commit_trial, start_or_continue_trial, select_by_state, boot_slot_selection_select,
  next_trial_attempts, reject_invalid_best_effort, with_metadata,
}

-- Which slot a decision is about.
abbrev pub decided_slot : Decision → Record → ℕ
decided_slot Decision.trial current = current.candidate_slot
decided_slot _ current = current.active_slot

decided_active :
    (kind : Decision) (current : Record)
    → kind ≢ Decision.trial
    → decided_slot kind current ≡ current.active_slot
decided_active kind current h = ground arith

abbrev on_commit :
    {D : Type 0}
    → Status × D
    → Selection
    → (Status → D → Status × Selection × D)
    → Status × Selection × D
on_commit x sel f = elim x.0 [ Status.ok ↦ (Status.ok, sel, x.1) | failed ↦ f failed x.1 ]

commit_split :
    {D : Type 0} (x : Status × D) (sel r' : Selection) (d' : D)
    (f : Status → D → Status × Selection × D)
    → on_commit x sel f ≡ (Status.ok, r', d')
    → ((x ≡ (Status.ok, d')) × (r' ≡ sel)) ⊎ (f x.0 x.1 ≡ (Status.ok, r', d'))
commit_split (Status.ok, d) sel r' d' f h = inl (ground arith)
commit_split (failed, d) sel r' d' f h = inr h

abbrev on_status : {A : Type 0} → Status → A → (Status → A) → A
on_status status passed f = elim status [ Status.ok ↦ passed | failed ↦ f failed ]

candidate_split :
    {A : Type 0} (status : Status) (passed : A) (f : Status → A) (out : A)
    → on_status status passed f ≡ out
    → ((status ≡ Status.ok) × (passed ≡ out)) ⊎ (f status ≡ out)
candidate_split Status.ok passed f out h = inl (refl, h)
candidate_split failed passed f out h = inr h

module _ {D : Type 0} (options : Options D) where
  -- What a slot that is selected satisfies against the journal's record: it is the candidate in a
  -- trial and the confirmed slot otherwise, and the verify function accepted it.
  pub record IsVerified (current : Record) (r : Selection) : Type 0 where
    pub at : D
    pub slot : SlotDescriptor
    pub found : boot_slot_lookup r.selected_slot ≡ some slot
    pub verified : options.verify_slot at slot ≡ (Status.ok, r.jump_context, VerifyStatus.ok)
    pub decided : r.decision ≢ Decision.no_decision
    pub chosen : r.selected_slot ≡ decided_slot r.decision current

  pub verify_slot-inv :
      (d : D) (s : SlotDescriptor) (p : FaultPoint) (c : JumpContext) (v : VerifyStatus)
      → verify_slot options d s p ≡ (Status.ok, c, v)
      → (options.verify_slot d s ≡ (Status.ok, c, VerifyStatus.ok)) × (v ≡ VerifyStatus.ok)
  unfolding verify_slot
  verify_slot-inv d s p c v h = ground arith

  pub confirmed-IsVerified :
      (d d' : D) (current : Record) (kind : Decision) (r r' : Selection)
      → kind ≢ Decision.no_decision
      → kind ≢ Decision.trial
      → select_confirmed_slot options d current kind r ≡ (Status.ok, r', d')
      → IsVerified current r' × (r'.decision ≡ kind)
  unfolding select_confirmed_slot
  confirmed-IsVerified d d' current kind r r' some_kind no_trial h =
      elim (Option-cases (boot_slot_lookup current.active_slot)) [
        | inl e ↦ ground arith
        | inr (s, e) ↦
            let seen : verify_slot options d s FaultPoint.verify_confirmed
                ≡ (Status.ok, r'.jump_context, r'.selected_verify_status) =
              ground arith in
            let (verified, v) =
              verify_slot-inv d s FaultPoint.verify_confirmed r'.jump_context
                r'.selected_verify_status seen in
            let (_, named, _) = lookup-IsWellPlaced current.active_slot s e in
            let slot_is : r'.selected_slot ≡ current.active_slot = ground arith in
            let kind_is : r'.decision ≡ kind = ground arith in
            let known : IsVerified current r' = record {
              at = d;
              slot = s;
              found = ap boot_slot_lookup slot_is ∙ e;
              verified = verified;
              decided = ground arith;
              chosen =
                  slot_is
                  ∙ sym (
                      ap (λ k. decided_slot k current) kind_is
                      ∙ decided_active kind current no_trial);
            } in
            (known, kind_is)
      ]

  pub fallback-IsVerified :
      (d d' : D) (current : Record) (r r' : Selection)
      → fallback_to_confirmed options d current r ≡ (Status.ok, r', d')
      → IsVerified current r' × (r'.decision ≡ Decision.fallback)
  unfolding fallback_to_confirmed
  fallback-IsVerified d d' current r r' h =
      confirmed-IsVerified d d' current Decision.fallback r r' (ground arith) (ground arith)
        (ground arith)

  -- The two ways out of the trial branch: the record of the trial is committed and the candidate is
  -- selected, or the fallback is taken.
  pub record Tried (d d' : D) (current : Record) (s : SlotDescriptor) (c : JumpContext)
      (r r' : Selection) : Type 0 where
    pub attempts : ℕ
    pub point : FaultPoint
    pub next : Record
    pub budget : next_trial_attempts current ≡ some (attempts, point)
    pub prepared : trial_record options current attempts ≡ done next
    pub committed : commit_next options d next point attempts ≡ (Status.ok, d')
    pub selected : r' ≡ record r {
      decision = Decision.trial;
      selected_slot = s.id;
      selected_verify_status = VerifyStatus.ok;
      attempts_remaining_after = attempts;
      jump_context = c;
    }

  pub trial_cases :
      (d d' : D) (current : Record) (s : SlotDescriptor) (c : JumpContext) (r r' : Selection)
      → commit_trial options d current s c r ≡ (Status.ok, r', d')
      → Tried d d' current s c r r'
        ⊎ ((cause : Status) × (d0 : D) × (fallback_for options cause d0 current r
              ≡ (Status.ok, r', d')))
  unfolding commit_trial
  trial_cases d d' current s c r r' h = elim (Option-cases (next_trial_attempts current)) [
    | inl e ↦ inr (
      Status.no_bootable_slot,
      reject_invalid_best_effort options d current attempts_exhausted,
      rw (e, commit_trial) at h,
    )
    | inr ((attempts, point), e) ↦ elim (Result-cases (trial_record options current attempts)) [
      | inr (refused, f) ↦ inr (Status.metadata, d, rw (e, f, commit_trial) at h)
      | inl (next, f) ↦
          let taken : Selection = record r {
            decision = Decision.trial;
            selected_slot = s.id;
            selected_verify_status = VerifyStatus.ok;
            attempts_remaining_after = attempts;
            jump_context = c;
          } in
          elim (commit_split (commit_next options d next point attempts) taken r' d'
            (λ cause d0. fallback_for options cause d0 current r) (rw (e, f, commit_trial) at h)) [
              | inl (done_ok, r_is) ↦ inl (record {
                attempts = attempts;
                point = point;
                next = next;
                budget = e;
                prepared = f;
                committed = done_ok;
                selected = r_is;
              })
              | inr g ↦ inr (
                (commit_next options d next point attempts).0,
                (commit_next options d next point attempts).1,
                g,
              )
            ]
    ]
  ]

  -- A trial that is selected: the candidate was verified and its trial record is committed.
  pub record Trial (d d' : D) (current : Record) (r r' : Selection) : Type 0 where
    pub slot : SlotDescriptor
    pub context : JumpContext
    pub found : boot_slot_lookup current.candidate_slot ≡ some slot
    pub verified : options.verify_slot d slot ≡ (Status.ok, context, VerifyStatus.ok)
    pub seen : Selection
    pub tried : Tried d d' current slot context seen r'

  pub start_cases :
      (d d' : D) (current : Record) (r r' : Selection)
      → start_or_continue_trial options d current r ≡ (Status.ok, r', d')
      → Trial d d' current r r' ⊎ (IsVerified current r' × (r'.decision ≡ Decision.fallback))
  unfolding start_or_continue_trial
  start_cases d d' current r r' h = elim (Option-cases (boot_slot_lookup current.candidate_slot)) [
    | inl e ↦ inr (
        fallback-IsVerified d d' current (record r { fallback_cause = Status.slot }) r'
          (rw (e, start_or_continue_trial) at h))
    | inr (s, e) ↦
        let (status, context, verified) = verify_slot options d s FaultPoint.verify_candidate in
        let seen = record r { candidate_verify_status = verified } in
        elim (candidate_split status (commit_trial options d current s context seen)
          (λ failed.
            fallback_for options failed
              (reject_invalid_best_effort options d current candidate_verify_failed) current seen)
          (Status.ok, r', d') (rw (e, start_or_continue_trial) at h)) [
            | inl (passed, taken) ↦
                let (good, _) =
                  verify_slot-inv d s FaultPoint.verify_candidate context verified
                    (λ i. (passed i, context, verified)) in
                elim (trial_cases d d' current s context seen r' taken) [
                  | inl tried ↦ inl (record {
                    slot = s;
                    context = context;
                    found = e;
                    verified = good;
                    seen = seen;
                    tried = tried;
                  })
                  | inr (cause, d0, f) ↦ inr (
                      fallback-IsVerified d0 d' current (record seen { fallback_cause = cause }) r'
                        f)
                ]
            | inr f ↦ inr (fallback-IsVerified _ d' current _ r' f)
          ]
  ]

  Trial-IsVerified :
      (d d' : D) (current : Record) (r r' : Selection)
      → Trial d d' current r r'
      → IsVerified current r'
  Trial-IsVerified d d' current r r' t =
      let (_, named, _) = lookup-IsWellPlaced current.candidate_slot t.slot t.found in
      let same = t.tried.selected in
      let slot_is : r'.selected_slot ≡ current.candidate_slot =
        ap (λ x. x.selected_slot) same ∙ named in
      let context_is : r'.jump_context ≡ t.context = ap (λ x. x.jump_context) same in
      let kind_is : r'.decision ≡ Decision.trial = ap (λ x. x.decision) same in
      record {
        at = d;
        slot = t.slot;
        found = ap boot_slot_lookup slot_is ∙ t.found;
        verified = t.verified ∙ ap (λ x. (Status.ok, x, VerifyStatus.ok)) (sym context_is);
        decided = ground arith;
        chosen = slot_is ∙ sym (ap (λ k. decided_slot k current) kind_is);
      }

  started-IsVerified :
      (d d' : D) (current : Record) (r r' : Selection)
      → Trial d d' current r r' ⊎ (IsVerified current r' × (r'.decision ≡ Decision.fallback))
      → IsVerified current r'
  started-IsVerified d d' current r r' (inl t) = Trial-IsVerified d d' current r r' t
  started-IsVerified d d' current r r' (inr v) = v.0

  by_state-IsVerified :
      (d d' : D) (state : State) (current : Record) (r r' : Selection)
      → select_by_state options state d current r ≡ (Status.ok, r', d')
      → IsVerified current r'
  unfolding select_by_state
  by_state-IsVerified d d' State.confirmed current r r' h =
      (confirmed-IsVerified d d' current Decision.confirmed r r' (ground arith) (ground arith) h).0
  by_state-IsVerified d d' State.candidate_ready current r r' h =
      started-IsVerified d d' current r r' (start_cases d d' current r r' h)
  by_state-IsVerified d d' State.pending_trial current r r' h =
      started-IsVerified d d' current r r' (start_cases d d' current r r' h)
  by_state-IsVerified d d' State.writing current r r' h =
      (fallback-IsVerified d d' current r r' h).0
  by_state-IsVerified d d' State.rejected_invalid current r r' h =
      (fallback-IsVerified d d' current r r' h).0
  by_state-IsVerified d d' State.empty current r r' h = ground arith

  -- Stage 0 selects only a slot that the lookup knows and that the verify function accepted, and hands
  -- on the jump context which that call made. The slot is the journal's candidate in a trial, and its
  -- confirmed slot in every other decision.
  pub select-IsVerified :
      (d d' : D) (r : Selection)
      → boot_slot_selection_select options d ≡ (Status.ok, r, d')
      → IsVerified (boot_metadata_recover_from_flash options.metadata_flash d).1 r
  unfolding boot_slot_selection_select
  select-IsVerified d d' r h =
      let (status, current, recovery, d1) =
        boot_metadata_recover_from_flash options.metadata_flash d in
      by_state-IsVerified d1 d' current.state current (with_metadata current recovery) r
        (ground arith)
