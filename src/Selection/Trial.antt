-- ===== src/Selection/Trial.antt =====
-- A trial boot: its record is in the journal before the candidate is selected, and it uses up one of
-- the attempts.
use stm32_security_lab.Common.{
  ℕ, ◌+◌, ◌<◌, ◌≤◌, ◌≡◌, ◌⊎◌, inl, inr, refl, sym, ap, ◌∙◌, subst, true, some, arith, done, not,
  ◌==◌, if◌then◌else◌,
}
use stm32_security_lab.Flash.Device.{Backed}
use stm32_security_lab.Slot.{SlotDescriptor}
use stm32_security_lab.Image.Verify.{JumpContext}
use stm32_security_lab.Metadata.{
  State, MetadataStatus, Record, max_boot_attempts, next_record, state_record_is_canonical,
}
use stm32_security_lab.Metadata.RoundTrip.{IsWords}
use stm32_security_lab.Metadata.Recovery.{journal}
use stm32_security_lab.Metadata.Lifecycle.{canonical_attempts, prepare_next-IsNext}
use stm32_security_lab.Metadata.Durable.{commit-journal, journal_sound, recovered_journal}
use stm32_security_lab.Metadata.Journal.{boot_metadata_recover_from_flash, boot_metadata_commit}
use stm32_security_lab.Selection.{
  Status, Decision, FaultPoint, Selection, Options, commit_next, trial_record, next_trial_attempts,
  boot_slot_selection_select, select_by_state, with_metadata,
}
use stm32_security_lab.Selection.Safe.{
  Tried, Trial, start_cases, fallback-IsVerified, confirmed-IsVerified,
}

-- How many trial boots a journal's record still allows.
abbrev pub trials_left : State → Record → ℕ
trials_left State.candidate_ready r = max_boot_attempts
trials_left State.pending_trial r = r.boot_attempt_count
trials_left _ r = 0

next_attempts-left :
    (current : Record) (attempts : ℕ) (point : FaultPoint)
    → (current.state ≡ State.candidate_ready) ⊎ (current.state ≡ State.pending_trial)
    → next_trial_attempts current ≡ some (attempts, point)
    → attempts + 1 ≡ trials_left current.state current
unfolding next_trial_attempts
next_attempts-left current attempts point (inl k) h = ground arith
next_attempts-left current attempts point (inr k) h = ground arith

pending-left :
    (r : Record) → r.state ≡ State.pending_trial → trials_left r.state r ≡ r.boot_attempt_count
pending-left r h = ap (λ s. trials_left s r) h

trials_left-bound :
    (state : State) (r : Record)
    → state_record_is_canonical r ≡ true
    → trials_left state r ≤ max_boot_attempts
trials_left-bound state r h = ground (arith, canonical_attempts r)

module _ {D : Type 0} (options : Options D) where
  by_state-Trial :
      (d d' : D) (state : State) (current : Record) (r r' : Selection)
      → select_by_state options state d current r ≡ (Status.ok, r', d')
      → r'.decision ≡ Decision.trial
      → ((state ≡ State.candidate_ready) ⊎ (state ≡ State.pending_trial))
        × Trial options d d' current r r'
  unfolding select_by_state
  by_state-Trial d d' State.confirmed current r r' h k =
      absurd (ground (arith, confirmed-IsVerified options d d' current Decision.confirmed r r'))
  by_state-Trial d d' State.candidate_ready current r r' h k =
      elim (start_cases options d d' current r r' h) [
        | inl t ↦ (inl refl, t)
        | inr (_, f) ↦ absurd (ground arith)
      ]
  by_state-Trial d d' State.pending_trial current r r' h k =
      elim (start_cases options d d' current r r' h) [
        | inl t ↦ (inr refl, t)
        | inr (_, f) ↦ absurd (ground arith)
      ]
  by_state-Trial d d' State.writing current r r' h k =
      absurd (ground (arith, fallback-IsVerified options d d' current r r'))
  by_state-Trial d d' State.rejected_invalid current r r' h k =
      absurd (ground (arith, fallback-IsVerified options d d' current r r'))
  by_state-Trial d d' State.empty current r r' h k = absurd (ground arith)

  commit_next-inv :
      (d d' : D) (next : Record) (p : FaultPoint) (n : ℕ)
      → commit_next options d next p n ≡ (Status.ok, d')
      → boot_metadata_commit options.metadata_flash d next ≡ (MetadataStatus.ok, d')
  unfolding commit_next
  commit_next-inv d d' next p n h = ground arith

  next-IsWords :
      (current next : Record) (attempts : ℕ)
      → options.trial_reset_result < 4294967296
      → IsWords current
      → attempts < 4294967296
      → trial_record options current attempts ≡ done next
      → IsWords next
        × (next.state ≡ State.pending_trial)
        × (next.candidate_slot ≡ current.candidate_slot)
        × (next.boot_attempt_count ≡ attempts)
  unfolding next_record
  next-IsWords current next attempts reset w small h =
      let word = if not (options.trial_reset_result == 0) then options.trial_reset_result else 0 in
      let word_lt : word < 4294967296 = ground arith in
      let (_, same) =
        prepare_next-IsNext current next State.pending_trial current.active_slot
          current.candidate_slot current.candidate_image_version attempts 0 word h in
      let a = w.active_lt in
      let c = w.candidate_lt in
      let v = w.version_lt in
      rw same (
        record {
          sequence_lt = omega arith;
          active_lt = a;
          candidate_lt = c;
          version_lt = v;
          attempts_lt = small;
          confirmation_lt = omega arith;
          result_lt = word_lt;
        },
        refl,
        refl,
        refl,
      )

  module _ (mem : D → ℕ → ℕ) (backed : Backed options.metadata_flash.ops mem)
      (word : options.trial_reset_result < 4294967296) where
    commit_shown :
        (d d' : D) (next : Record)
        → IsWords next
        → boot_metadata_commit options.metadata_flash d next ≡ (MetadataStatus.ok, d')
        → ((journal (mem d')).0 ≡ MetadataStatus.ok) × ((journal (mem d')).1 ≡ next)
    commit_shown d d' next w h =
        let (found, same) =
          commit-journal options.metadata_flash mem backed d next w (ap (λ x. x.0) h) in
        let device : (boot_metadata_commit options.metadata_flash d next).1 ≡ d' =
          ap (λ x. x.1) h in
        (rw device at found, rw device at same)

    -- What the journal holds after a trial of `current`.
    record Spent (current : Record) (r : Selection) (found : MetadataStatus) (after : Record)
        : Type 0 where
      is_found : found ≡ MetadataStatus.ok
      pending : after.state ≡ State.pending_trial
      candidate : after.candidate_slot ≡ current.candidate_slot
      reported : after.boot_attempt_count ≡ r.attempts_remaining_after
      spent : after.boot_attempt_count + 1 ≡ trials_left current.state current

    tried-Spent :
        (d d' : D) (current : Record) (s : SlotDescriptor) (c : JumpContext) (seen r : Selection)
        → (current.state ≡ State.candidate_ready) ⊎ (current.state ≡ State.pending_trial)
        → state_record_is_canonical current ≡ true
        → IsWords current
        → Tried options d d' current s c seen r
        → Spent current r (journal (mem d')).0 (journal (mem d')).1
    tried-Spent d d' current s c seen r live canonical words tried =
        let left = next_attempts-left current tried.attempts tried.point live tried.budget in
        let bound = trials_left-bound current.state current canonical in
        let small : tried.attempts < 4294967296 = omega (arith, left, bound) in
        let (w, state_is, candidate_is, count_is) =
          next-IsWords current tried.next tried.attempts word words small tried.prepared in
        let committed =
          commit_next-inv d d' tried.next tried.point tried.attempts tried.committed in
        let (found, same) = commit_shown d d' tried.next w committed in
        let reported : r.attempts_remaining_after ≡ tried.attempts =
          ap (λ x. x.attempts_remaining_after) tried.selected in
        rw (same) (record {
          is_found = found;
          pending = state_is;
          candidate = candidate_is;
          reported = count_is ∙ sym reported;
          spent = omega (arith, count_is, left);
        })

    recovered-Spent :
        (d d1 d' : D) (current : Record) (r0 r : Selection)
        → ((journal (mem d)).0 ≡ MetadataStatus.ok) × (current ≡ (journal (mem d)).1)
        → select_by_state options current.state d1 current r0 ≡ (Status.ok, r, d')
        → r.decision ≡ Decision.trial
        → Spent (journal (mem d)).1 r (journal (mem d')).0 (journal (mem d')).1
    recovered-Spent d d1 d' current r0 r (found, same) h k =
        let (live, t) = by_state-Trial d1 d' current.state current r0 r h k in
        let (canonical, words) = journal_sound (mem d) found in
        let spent =
          tried-Spent d1 d' current t.slot t.context t.seen r live (rw same canonical)
            (rw same words) t.tried in
        subst (λ c. Spent c r (journal (mem d')).0 (journal (mem d')).1) same spent

    selected-by_state :
        (d d' : D) (r : Selection)
        → boot_slot_selection_select options d ≡ (Status.ok, r, d')
        → let (status, current, recovery, d1) =
            boot_metadata_recover_from_flash options.metadata_flash d in
          (status ≡ MetadataStatus.ok)
          × (select_by_state options current.state d1 current (with_metadata current recovery)
              ≡ (Status.ok, r, d'))
    unfolding boot_slot_selection_select
    selected-by_state d d' r h = ground arith

    -- A trial that is selected, with a reset word of 32 bits, is in the journal already: the journal holds its candidate as a pending
    -- trial, with one attempt less than it allowed before, which is the number that the result reports.
    pub trial-journal :
        (d d' : D) (r : Selection)
        → boot_slot_selection_select options d ≡ (Status.ok, r, d')
        → r.decision ≡ Decision.trial
        → let before = (journal (mem d)).1 in
          let after = journal (mem d') in
          (after.0 ≡ MetadataStatus.ok)
          × (after.1.state ≡ State.pending_trial)
          × (after.1.candidate_slot ≡ before.candidate_slot)
          × (after.1.boot_attempt_count ≡ r.attempts_remaining_after)
          × (after.1.boot_attempt_count + 1 ≡ trials_left before.state before)
    trial-journal d d' r h k =
        let (found, selected) = selected-by_state d d' r h in
        let (status, current, recovery, d1) =
          boot_metadata_recover_from_flash options.metadata_flash d in
        let s =
          recovered-Spent d d1 d' current (with_metadata current recovery) r
            (recovered_journal options.metadata_flash mem backed d found) selected k in
        (s.is_found, s.pending, s.candidate, s.reported, s.spent)

    -- Boots that select a trial, one after the other, with nothing in between that confirms it.
    pub data TrialBoots (d : D) : ℕ → D → Type 0 where
      none_yet : TrialBoots d 0 d
      boot :
          {n : ℕ} {d1 d2 : D} {r : Selection}
          → TrialBoots d n d1
          → boot_slot_selection_select options d1 ≡ (Status.ok, r, d2)
          → r.decision ≡ Decision.trial
          → TrialBoots d (n + 1) d2

    TrialBoots-left :
        {d d' : D} {n : ℕ}
        → TrialBoots d n d'
        → n + trials_left (journal (mem d')).1.state (journal (mem d')).1
          ≡ trials_left (journal (mem d)).1.state (journal (mem d)).1
    TrialBoots-left none_yet = omega arith
    TrialBoots-left (boot {d1 = d1} {d2 = d2} {r = r} boots h k) =
        let (found, pending, _, _, spent) = trial-journal d1 d2 r h k in
        let left = pending-left (journal (mem d2)).1 pending in
        omega (arith, TrialBoots-left boots, spent, left)

    -- From a journal that recovers, Stage 0 selects a trial in at most three consecutive boots with nothing
    -- in between: each of them uses up one of the attempts that the journal's record allows.
    pub TrialBoots-bounded :
        {d d' : D} {n : ℕ}
        → (journal (mem d)).0 ≡ MetadataStatus.ok
        → TrialBoots d n d'
        → (n + trials_left (journal (mem d')).1.state (journal (mem d')).1
            ≡ trials_left (journal (mem d)).1.state (journal (mem d)).1)
          × (n ≤ max_boot_attempts)
    TrialBoots-bounded {d = d} found boots =
        let total = TrialBoots-left boots in
        let (canonical, _) = journal_sound (mem d) found in
        (
          total,
          omega (
            arith,
            total,
            trials_left-bound (journal (mem d)).1.state (journal (mem d)).1 canonical,
          ),
        )
