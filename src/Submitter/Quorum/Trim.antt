-- ===== src/Submitter/Quorum/Trim.antt =====
-- submitter/quorum.go, trimToQuorum and canDropSafely. A slot is an entry `i` of the collected
-- SCTs: `strategy[qs.strategyIndices[i]]` with its flag `selected[i]`.
use ctsubmit.Prelude.{
  ℕ, zero, suc, ◌+◌, ◌-◌, String, Bool, true, false, not, ◌&&◌, ◌||◌, List, [], ◌∷◌, length, ltb,
  leb, ◌==◌, contains, nat_eq, string_eq, if◌then◌else◌, get_or, set, keep,
}
use ctsubmit.Submitter.Types.{
  LogType, rfc6962, static, is_type, StrategyMember, zero_member, member_at, Needs,
}
use ctsubmit.Submitter.Quorum.{QuorumState}

pub record Slot : Type 0 where
  pub member : StrategyMember
  pub selected : Bool

abbrev pub no_slot : Slot
no_slot = record { member = zero_member; selected = false }

pub record Selection : Type 0 where
  pub slots : List Slot
  pub count : ℕ

-- Put an entry that a loop has passed back in front of what the loop did with the rest.
abbrev pub put_back : Slot → Selection → Selection
put_back s r = record { slots = s ∷ r.slots; count = r.count }

-- One entry for each operator, until the limit is reached.
unfoldable pub diversify : ℕ → ℕ → List String → List Slot → Selection
diversify limit count seen [] = record { slots = []; count = count }
diversify limit count seen (s ∷ ss) =
    let skip = put_back s (diversify limit count seen ss) in
    let take =
      put_back (record s { selected = true })
        (diversify limit (count + 1) (s.member.operator ∷ seen) ss) in
    if leb limit count
    then record { slots = s ∷ ss; count = count }
    else if contains seen s.member.operator
    then skip
    else take

unfoldable pub has_selected : LogType → List Slot → Bool
has_selected t [] = false
has_selected t (s ∷ ss) = s.selected && is_type s.member.log_type t || has_selected t ss

-- Add the first entry of a type that is not selected.
unfoldable pub select_first : LogType → ℕ → List Slot → Selection
select_first t count [] = record { slots = []; count = count }
select_first t count (s ∷ ss) =
    if not s.selected && is_type s.member.log_type t
    then record { slots = record s { selected = true } ∷ ss; count = count + 1 }
    else put_back s (select_first t count ss)

-- `canDropSafely`, its first loop: entry `drop` aside, is an entry of that operator selected?
-- The loops over the entries count `j` up from their first argument but one.
unfoldable pub shares_operator : ℕ → ℕ → String → List Slot → Bool
shares_operator drop j op [] = false
shares_operator drop j op (s ∷ ss) =
    not (j == drop) && s.selected && s.member.operator == op || shares_operator drop (j + 1) op ss

-- Its second loop: the number of operators selected, entry `drop` aside.
unfoldable pub unique_operators : ℕ → ℕ → List String → List Slot → ℕ
unique_operators drop j seen [] = 0
unique_operators drop j seen (s ∷ ss) =
    let same = unique_operators drop (j + 1) seen ss in
    let more = suc (unique_operators drop (j + 1) (s.member.operator ∷ seen) ss) in
    if not (j == drop) && s.selected && not (contains seen s.member.operator) then more else same

unfoldable pub can_drop_safely : Needs → List Slot → ℕ → Bool
unfolding shares_operator unique_operators
can_drop_safely sr slots drop =
    let dropped_op = (get_or slots drop no_slot).member.operator in
    if shares_operator drop 0 dropped_op slots
    then true
    else leb sr.operators (unique_operators drop 0 [] slots)

abbrev pub deselect : ℕ → List Slot → List Slot
deselect i slots = set slots i (record (get_or slots i no_slot) { selected = false })

-- `for i := n - 1; i >= 0; i--`: drop the first selected entry that passes the test.
unfoldable pub drop_last : (ℕ → Bool) → ℕ → Selection → Selection
drop_last droppable zero r = r
drop_last droppable (suc i) r =
    let rest = drop_last droppable i r in
    if (get_or r.slots i no_slot).selected && droppable i
    then record { slots = deselect i r.slots; count = r.count - 1 }
    else rest

-- Is an entry of an RFC 6962 log selected, entry `drop` aside?
unfoldable pub other_rfc6962 : ℕ → ℕ → List Slot → Bool
other_rfc6962 drop j [] = false
other_rfc6962 drop j (s ∷ ss) =
    not (j == drop) && s.selected && is_type s.member.log_type rfc6962
    || other_rfc6962 drop (j + 1) ss

abbrev pub type_at : List Slot → ℕ → LogType
type_at slots i = (get_or slots i no_slot).member.log_type

-- Which entry may make room for an RFC 6962 one, and which for a static one.
unfoldable pub droppable_for_rfc6962 : Needs → List Slot → ℕ → Bool
droppable_for_rfc6962 sr slots i =
    not (is_type (type_at slots i) rfc6962) && can_drop_safely sr slots i

unfoldable pub droppable_for_static : Needs → List Slot → ℕ → Bool
droppable_for_static sr slots i =
    if sr.require_rfc6962 && is_type (type_at slots i) rfc6962 && not (other_rfc6962 i 0 slots)
    then false
    else not (is_type (type_at slots i) static) && can_drop_safely sr slots i

abbrev pub make_room : (List Slot → ℕ → Bool) → ℕ → Selection → Selection
make_room droppable limit r =
    if ltb limit r.count then drop_last (droppable r.slots) (length r.slots) r else r

unfoldable pub ensure_rfc6962 : Needs → Selection → Selection
ensure_rfc6962 sr r =
    if sr.require_rfc6962 && not (has_selected rfc6962 r.slots)
    then make_room (droppable_for_rfc6962 sr) sr.scts (select_first rfc6962 r.count r.slots)
    else r

unfoldable pub ensure_static : Needs → Selection → Selection
ensure_static sr r =
    if sr.prefer_static && not (has_selected static r.slots)
    then make_room (droppable_for_static sr) sr.scts (select_first static r.count r.slots)
    else r

-- Fill the slots that remain, in order.
unfoldable pub fill : ℕ → ℕ → List Slot → Selection
fill limit count [] = record { slots = []; count = count }
fill limit count (s ∷ ss) =
    let stay = put_back s (fill limit count ss) in
    let take = put_back (record s { selected = true }) (fill limit (count + 1) ss) in
    if leb limit count
    then record { slots = s ∷ ss; count = count }
    else if s.selected
    then stay
    else take

abbrev pub slots_of : List StrategyMember → List ℕ → List Slot
slots_of strategy [] = []
slots_of strategy (si ∷ rest) =
    record { member = member_at strategy si; selected = false } ∷ slots_of strategy rest

-- The entries that trimToQuorum selects.
unfoldable pub choose : Needs → List Slot → List Slot
choose sr slots =
    let r = ensure_static sr (ensure_rfc6962 sr (diversify sr.scts 0 [] slots)) in
    (fill sr.scts r.count r.slots).slots

abbrev pub flags : List Slot → List Bool
flags [] = []
flags (s ∷ ss) = s.selected ∷ flags ss

unfoldable pub mark_unneeded : List Bool → List ℕ → List StrategyMember → List StrategyMember
mark_unneeded [] indices strategy = strategy
mark_unneeded (b ∷ bs) [] strategy = strategy
mark_unneeded (b ∷ bs) (si ∷ rest) strategy = mark_unneeded bs rest (
    if b
    then strategy
    else set strategy si (record (member_at strategy si) {
      outcome = "Submission successful, but not needed for quorum";
    }))

module _ {R S : Type 0} where
  unfoldable pub trim_to_quorum :
      QuorumState R S → Needs → List StrategyMember → QuorumState R S × List StrategyMember
  trim_to_quorum qs sr strategy =
      let selected = flags (choose sr (slots_of strategy qs.strategy_indices)) in
      if leb (length qs.responses) sr.scts then (qs, strategy) else (
        record qs {
          responses = keep selected qs.responses;
          scts = keep selected qs.scts;
          strategy_indices = keep selected qs.strategy_indices;
        },
        mark_unneeded selected qs.strategy_indices strategy,
      )
