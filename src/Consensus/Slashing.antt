-- ===== src/Consensus/Slashing.antt =====
-- slashing.go: the tracker of misbehaviour. `now` stands for time.Now() in nanoseconds, and a call
-- of the executeSlash callback is an entry of `executed`. Each method holds the mutex throughout.
pub mod Penalties
mod Tests
use synthos_collective.Prelude.{
  ℕ, ◌+◌, ◌-◌, Bool, true, false, not, ◌&&◌, Option, none, some, get_or, List, [], ◌∷◌, ◌++◌, map,
  ltb, if◌then◌else◌, ◌==◌, nat_eq, string_eq, String,
}
use synthos_collective.Words.{add64, sub64, is_positive}
use synthos_collective.Text.{join}
use synthos_collective.Text.Numbers.{format_uint}
use synthos_collective.Dict.{Dict, lookup, insert, delete}

pub data SlashingType : Type 0 where
  double_signing invalid_block downtime equivocation : SlashingType

pub record SlashingEvent : Type 0 where
  pub validator_id : String
  pub event_type : SlashingType
  pub block_height : ℕ
  pub timestamp : ℕ
  pub evidence : String

pub record SlashingParams : Type 0 where
  pub double_sign_penalty : ℕ
  pub invalid_block_penalty : ℕ
  pub downtime_penalty : ℕ
  pub slashing_window : ℕ
  pub jail_duration : ℕ

pub record SlashingTracker : Type 0 where
  pub params : SlashingParams
  pub events : List SlashingEvent
  pub validator_stakes : Dict String ℕ
  pub jailed_until : Dict String ℕ
  pub signed_blocks : Dict String (List ℕ)
  pub missed_blocks : Dict String ℕ
  pub voted_hashes : Dict String (Dict ℕ String)
  pub has_execute_slash : Bool
  pub executed : List (String × ℕ)

-- 24 * time.Hour
abbrev day : ℕ
day = 86_400_000_000_000

unfoldable pub new_slashing_tracker : SlashingParams → SlashingTracker
new_slashing_tracker p = record {
  params = record p {
    slashing_window = if p.slashing_window == 0 then 100 else p.slashing_window;
    jail_duration = if p.jail_duration == 0 then day else p.jail_duration;
  };
  events = [];
  validator_stakes = [];
  jailed_until = [];
  signed_blocks = [];
  missed_blocks = [];
  voted_hashes = [];
  has_execute_slash = false;
  executed = [];
}

unfoldable pub set_validator_stake : String → ℕ → SlashingTracker → SlashingTracker
set_validator_stake v stake st = record st { validator_stakes = insert v stake st.validator_stakes }

-- The switch on the event type.
unfoldable pub penalty_for : SlashingParams → SlashingType → ℕ
penalty_for p double_signing = p.double_sign_penalty
penalty_for p invalid_block = p.invalid_block_penalty
penalty_for p downtime = p.downtime_penalty
penalty_for p equivocation = p.double_sign_penalty

abbrev pub is_downtime : SlashingType → Bool
is_downtime double_signing = false
is_downtime invalid_block = false
is_downtime downtime = true
is_downtime equivocation = false

-- A stake is lowered only where it is known.
unfoldable pub reduce_stake : String → ℕ → Dict String ℕ → Dict String ℕ
reduce_stake v penalty stakes = elim (lookup v stakes) [
  | none ↦ stakes
  | some stake ↦ insert v (if ltb penalty stake then stake - penalty else 0) stakes
]

-- recordSlashingLocked, which always returns an error: the callers return `some` of the type.
unfoldable pub record_slashing :
    String → SlashingType → ℕ → String → ℕ → SlashingTracker → SlashingTracker
unfolding penalty_for reduce_stake
record_slashing v event_type height evidence now st =
    let penalty = penalty_for st.params event_type in
    let event : SlashingEvent = record {
      validator_id = v;
      event_type = event_type;
      block_height = height;
      timestamp = now;
      evidence = evidence;
    } in
    record st {
      events = st.events ++ (event ∷ []);
      validator_stakes = reduce_stake v penalty st.validator_stakes;
      jailed_until = insert v (now + st.params.jail_duration) st.jailed_until;
      executed =
          if st.has_execute_slash && ltb 0 penalty && not (is_downtime event_type)
          then st.executed ++ ((v, penalty) ∷ [])
          else st.executed;
    }

-- What a report returns: nil, or the violation that was slashed.
abbrev pub Report : Type 0
Report = Option SlashingType × SlashingTracker

member : ℕ → List ℕ → Bool
member n [] = false
member n (m ∷ ms) = if m == n then true else member n ms

unfoldable pub detect_double_signing : String → ℕ → ℕ → SlashingTracker → Report
unfolding member record_slashing
detect_double_signing v height now st =
    let heights = get_or (lookup v st.signed_blocks) [] in
    let text = join "validator signed multiple blocks at height " (format_uint height) in
    if member height heights
    then (some double_signing, record_slashing v double_signing height text now st)
    else (none, record st { signed_blocks = insert v (heights ++ (height ∷ [])) st.signed_blocks })

unfoldable pub record_missed_block : String → ℕ → SlashingTracker → Report
unfolding record_slashing
record_missed_block v now st =
    let missed = add64 (get_or (lookup v st.missed_blocks) 0) 1 in
    let counted = record st { missed_blocks = insert v missed st.missed_blocks } in
    let text = join "validator missed " (join (format_uint missed) " blocks") in
    if ltb 10 missed
    then (some downtime, record_slashing v downtime 0 text now counted)
    else (none, counted)

unfoldable pub record_invalid_block : String → ℕ → String → ℕ → SlashingTracker → Report
unfolding record_slashing
record_invalid_block v height evidence now st =
    (some invalid_block, record_slashing v invalid_block height evidence now st)

pub conflict_text : String → String → ℕ → String
conflict_text a b height =
    join "validator voted for both "
      (join a (join " and " (join b (join " at height " (format_uint height)))))

unfoldable pub record_equivocation : String → ℕ → String → ℕ → SlashingTracker → Report
unfolding record_slashing conflict_text
record_equivocation v height hash now st =
    let by_height = get_or (lookup v st.voted_hashes) [] in
    elim (lookup height by_height) [
      | none ↦ (
        none,
        record st { voted_hashes = insert v (insert height hash by_height) st.voted_hashes },
      )
      | some prior ↦ if prior == hash then (none, st) else (
        some equivocation,
        record_slashing v equivocation height (conflict_text prior hash height) now st,
      )
    ]

-- The loop over the map: each validator forgets the height.
forget_height : ℕ → Dict String (Dict ℕ String) → Dict String (Dict ℕ String)
forget_height height [] = []
forget_height height ((v, votes) ∷ rest) = (v, delete height votes) ∷ forget_height height rest

unfoldable pub forget_votes_at_height : ℕ → SlashingTracker → SlashingTracker
unfolding forget_height
forget_votes_at_height height st = record st { voted_hashes = forget_height height st.voted_hashes }

unfoldable pub slash_count : String → List SlashingEvent → ℕ
slash_count v [] = 0
slash_count v (e ∷ rest) =
    if e.validator_id == v then slash_count v rest + 1 else slash_count v rest

unfoldable pub is_jailed : String → ℕ → SlashingTracker → Bool
is_jailed v now st = elim (lookup v st.jailed_until) [ none ↦ false | some end ↦ ltb now end ]

-- int64(h) > cutoff, for a positive cutoff
abbrev is_recent : ℕ → ℕ → Bool
is_recent cutoff h = is_positive h && ltb cutoff h

recent : ℕ → List ℕ → List ℕ
recent cutoff [] = []
recent cutoff (h ∷ hs) = if is_recent cutoff h then h ∷ recent cutoff hs else recent cutoff hs

unfoldable pub keep_recent : ℕ → Dict String (List ℕ) → Dict String (List ℕ)
unfolding recent
keep_recent cutoff [] = []
keep_recent cutoff ((v, heights) ∷ rest) =
    let others = keep_recent cutoff rest in
    elim (recent cutoff heights) [ [] ↦ others | h ∷ hs ↦ (v, h ∷ hs) ∷ others ]

unfoldable pub cleanup_old_signatures : ℕ → SlashingTracker → SlashingTracker
unfolding keep_recent
cleanup_old_signatures height st =
    let cutoff = sub64 height st.params.slashing_window in
    if is_positive cutoff
    then record st { signed_blocks = keep_recent cutoff st.signed_blocks; missed_blocks = [] }
    else st
