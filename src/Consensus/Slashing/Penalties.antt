-- ===== src/Consensus/Slashing/Penalties.antt =====
-- slashing.go: conflicting votes are punished, repeated and retired ones are not.
use synthos_collective.Prelude.{
  ℕ, ◌+◌, ◌-◌, ◌≡◌, ◌≢◌, refl, sym, subst, ap, ◌∙◌, true, none, some, [], ◌∷◌, ◌++◌, inl, inr,
  get_or, arith, String, nat_eq, string_eq, eq_iff, ◌&&◌, ◌==◌, false, ltb, if◌then◌else◌,
  Option-cases, ◌<◌, List,
}
use synthos_collective.Dict.{Dict, lookup, insert, lookup-insert_self}
use synthos_collective.Consensus.Slashing.{
  SlashingEvent, SlashingTracker, SlashingType, equivocation, conflict_text, record_slashing,
  penalty_for, reduce_stake, record_equivocation, is_jailed, slash_count,
}

slash_count-append :
    (v : String) (es : List SlashingEvent) (e : SlashingEvent)
    → e.validator_id ≡ v
    → slash_count v (es ++ (e ∷ [])) ≡ slash_count v es + 1
unfolding slash_count
slash_count-append v [] e h = ground (arith, eq_iff e.validator_id v)
slash_count-append v (x ∷ es) e h = ground (arith, slash_count-append v es e h)

-- A slash adds one event against the validator, lowers a known stake by the penalty down to 0,
-- adds no stake to an unknown validator, and jails the validator where the jail time is positive.
record_slashing_effects :
    (v : String) (kind : SlashingType) (height : ℕ) (evidence : String) (now : ℕ)
    (st : SlashingTracker)
    → let st' = record_slashing v kind height evidence now st in
      let penalty = penalty_for st.params kind in
      (slash_count v st'.events ≡ slash_count v st.events + 1)
      × ((stake : ℕ)
          → lookup v st.validator_stakes ≡ some stake
          → lookup v st'.validator_stakes ≡ some (stake - penalty))
      × (lookup v st.validator_stakes ≡ none → st'.validator_stakes ≡ st.validator_stakes)
      × (0 < st.params.jail_duration → is_jailed v now st' ≡ true)
unfolding record_slashing is_jailed reduce_stake
record_slashing_effects v kind height evidence now st =
    let event : SlashingEvent = record {
      validator_id = v;
      event_type = kind;
      block_height = height;
      timestamp = now;
      evidence = evidence;
    } in
    let end = now + st.params.jail_duration in
    let jailed = lookup-insert_self v end st.jailed_until in
    let penalty = penalty_for st.params kind in
    (
      slash_count-append v st.events event refl,
      λ stake known. ground (
        arith,
        lookup-insert_self v (if ltb penalty stake then stake - penalty else 0) st.validator_stakes,
      ),
      λ unknown. ground arith,
      λ pos. ground arith,
    )

-- A slash at a time: one more event against the validator, its stake lower by the penalty down to 0,
-- jailed for the jail time from then on, and the penalty handed to the callback where there is one.
abbrev pub Slashed : String → ℕ → ℕ → SlashingTracker → SlashingTracker → Type 0
Slashed v penalty now st st' =
    (slash_count v st'.events ≡ slash_count v st.events + 1)
    × (get_or (lookup v st'.validator_stakes) 0 ≡ get_or (lookup v st.validator_stakes) 0 - penalty)
    × (lookup v st'.jailed_until ≡ some (now + st.params.jail_duration))
    × (st'.executed ≡ (
        if st.has_execute_slash && ltb 0 penalty
        then st.executed ++ ((v, penalty) ∷ [])
        else st.executed))

lowered_stake :
    (v : String) (penalty : ℕ) (stakes : Dict String ℕ)
    → get_or (lookup v (reduce_stake v penalty stakes)) 0 ≡ get_or (lookup v stakes) 0 - penalty
unfolding reduce_stake
lowered_stake v penalty stakes = elim (Option-cases (lookup v stakes)) [
  | inl missing ↦ ground (arith, missing)
  | inr (stake, found) ↦
      ground (
        arith,
        found,
        lookup-insert_self v (if ltb penalty stake then stake - penalty else 0) stakes,
      )
]

equivocation-Slashed :
    (v : String) (height : ℕ) (evidence : String) (now : ℕ) (st : SlashingTracker)
    → Slashed v st.params.double_sign_penalty now st
        (record_slashing v equivocation height evidence now st)
unfolding record_slashing
equivocation-Slashed v height evidence now st = (
  slash_count-append v st.events _ refl,
  lowered_stake v st.params.double_sign_penalty st.validator_stakes,
  lookup-insert_self v (now + st.params.jail_duration) st.jailed_until,
  ground arith,
)

-- What a vote does at a height where one for `a` was taken before: another for `a`, or one for `b`.
abbrev Judges : String → ℕ → String → String → ℕ → SlashingTracker → SlashingTracker → Type 0
Judges v height a b now st st' =
    ((record_equivocation v height a now st').0 ≡ none)
    × ((record_equivocation v height a now st').1 ≡ st')
    × ((record_equivocation v height b now st').0 ≡ some equivocation)
    × Slashed v st.params.double_sign_penalty now st (record_equivocation v height b now st').1

repeated :
    (v : String) (height : ℕ) (a : String) (now : ℕ) (st : SlashingTracker)
    → lookup height (get_or (lookup v st.voted_hashes) []) ≡ some a
    → record_equivocation v height a now st ≡ (none, st)
unfolding record_equivocation
repeated v height a now st seen =
    let same : (a == a) ≡ true = ground (arith, eq_iff a a) in
    rw (seen, same, record_equivocation) refl

conflicting :
    (v : String) (height : ℕ) (a b : String) (now : ℕ) (st : SlashingTracker)
    → a ≢ b
    → lookup height (get_or (lookup v st.voted_hashes) []) ≡ some a
    → (evidence : String) × (record_equivocation v height b now st
        ≡ (some equivocation, record_slashing v equivocation height evidence now st))
unfolding record_equivocation
conflicting v height a b now st ne seen =
    let other : (a == b) ≡ false = ground (arith, eq_iff a b) in
    (conflict_text a b height, rw (seen, other, record_equivocation) refl)

seen-Judges :
    (v : String) (height : ℕ) (a b : String) (now : ℕ) (st : SlashingTracker)
    → a ≢ b
    → lookup height (get_or (lookup v st.voted_hashes) []) ≡ some a
    → Judges v height a b now st st
seen-Judges v height a b now st ne seen =
    let again = repeated v height a now st seen in
    let (evidence, by) = conflicting v height a b now st ne seen in
    (
      ap (λ r. r.0) again,
      ap (λ r. r.1) again,
      ap (λ r. r.0) by,
      subst (Slashed v st.params.double_sign_penalty now st) (sym (ap (λ r. r.1) by))
          (equivocation-Slashed v height evidence now st),
    )

-- After a vote that was taken without a report, the same vote again at that height is no violation
-- and changes nothing, and a vote for another block there is reported as equivocation and slashed:
-- it adds an event against the validator, lowers its stake by the penalty for double signing down
-- to 0, jails it for the jail time, and hands a penalty above 0 to the callback where there is one.
pub record_equivocation_conflict :
    (v : String) (height : ℕ) (a b : String) (t u : ℕ) (st : SlashingTracker)
    → a ≢ b
    → (record_equivocation v height a t st).0 ≡ none
    → let st' = (record_equivocation v height a t st).1 in
      ((record_equivocation v height a u st').0 ≡ none)
      × ((record_equivocation v height a u st').1 ≡ st')
      × ((record_equivocation v height b u st').0 ≡ some equivocation)
      × Slashed v st.params.double_sign_penalty u st (record_equivocation v height b u st').1
unfolding record_equivocation
record_equivocation_conflict v height a b t u st ne h =
    elim (Option-cases (lookup height (get_or (lookup v st.voted_hashes) []))) [
      | inl first ↦
          let votes = get_or (lookup v st.voted_hashes) [] in
          let taken = record st {
            voted_hashes = insert v (insert height a votes) st.voted_hashes;
          } in
          let stored = lookup-insert_self v (insert height a votes) st.voted_hashes in
          let kept = lookup-insert_self height a votes in
          let by : record_equivocation v height a t st ≡ (none, taken) =
            rw (first, record_equivocation) refl in
          subst (Judges v height a b u st) (sym (ap (λ r. r.1) by))
            (seen-Judges v height a b u taken ne (rw stored kept))
      | inr (prior, seen) ↦
          let same : prior ≡ a = ground (arith, seen, eq_iff prior a) in
          let there : lookup height (get_or (lookup v st.voted_hashes) []) ≡ some a =
            seen ∙ ap some same in
          subst (Judges v height a b u st) (sym (ap (λ r. r.1) (repeated v height a t st there)))
            (seen-Judges v height a b u st ne there)
    ]
