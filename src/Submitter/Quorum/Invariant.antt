-- ===== src/Submitter/Quorum/Invariant.antt =====
-- What a quorum state says of the logs that have answered, and that addSuccess keeps it.
use ctsubmit.Prelude.{
  ℕ, ◌≡◌, refl, ap, String, Bool, false, ◌||◌, List, [], ◌∷◌, ◌++◌, length, contains,
  contains-insert, contains-append, insert, nat_eq, string_eq, arith, length-append,
}
use ctsubmit.Prelude.Distinct.{distinct}
use ctsubmit.Submitter.Types.{LogType, rfc6962, static, is_type, StrategyMember, member_at}
use ctsubmit.Submitter.Quorum.{QuorumState, new_quorum_state, add_success}

-- The members at some indices, their operators, and whether one has a type.
abbrev pub collected : List StrategyMember → List ℕ → List StrategyMember
collected strategy [] = []
collected strategy (i ∷ is) = member_at strategy i ∷ collected strategy is

abbrev pub operators_of : List StrategyMember → List String
operators_of [] = []
operators_of (m ∷ ms) = m.operator ∷ operators_of ms

abbrev pub has_type : LogType → List StrategyMember → Bool
has_type t [] = false
has_type t (m ∷ ms) = is_type m.log_type t || has_type t ms

pub collected-append :
    (strategy : List StrategyMember) (is js : List ℕ)
    → collected strategy (is ++ js) ≡ collected strategy is ++ collected strategy js
collected-append strategy [] js = refl
collected-append strategy (i ∷ is) js =
    ap (◌∷◌ (member_at strategy i)) (collected-append strategy is js)

pub operators_of-append :
    (ms ns : List StrategyMember) → operators_of (ms ++ ns) ≡ operators_of ms ++ operators_of ns
operators_of-append [] ns = refl
operators_of-append (m ∷ ms) ns = ap (◌∷◌ m.operator) (operators_of-append ms ns)

pub has_type-append :
    (t : LogType) (ms ns : List StrategyMember)
    → has_type t (ms ++ ns) ≡ (has_type t ms || has_type t ns)
has_type-append t [] ns = refl
has_type-append t (m ∷ ms) ns = ground (arith, has_type-append t ms ns)

module _ {R S : Type 0} where
  -- The parallel lists have one length, `operators` is the set of the operators that have
  -- answered, and the two marks say which types have.
  pub record IsValid (strategy : List StrategyMember) (qs : QuorumState R S) : Type 0 where
    pub responses_parallel : length qs.responses ≡ length qs.strategy_indices
    pub scts_parallel : length qs.scts ≡ length qs.strategy_indices
    pub operators_once : distinct qs.operators ≡ length qs.operators
    pub operators_exact :
        (a : String)
        → contains qs.operators a
          ≡ contains (operators_of (collected strategy qs.strategy_indices)) a
    pub rfc6962_exact :
        qs.has_rfc6962_sct ≡ has_type rfc6962 (collected strategy qs.strategy_indices)
    pub static_exact : qs.has_static_sct ≡ has_type static (collected strategy qs.strategy_indices)

pub new_quorum_state-IsValid :
    (R S : Type 0) (strategy : List StrategyMember) → IsValid strategy (new_quorum_state R S)
unfolding new_quorum_state distinct contains
new_quorum_state-IsValid R S strategy = record {
  responses_parallel = refl;
  scts_parallel = refl;
  operators_once = refl;
  operators_exact = λ a. refl;
  rfc6962_exact = refl;
  static_exact = refl;
}

pub insert-distinct :
    (a : String) (xs : List String)
    → distinct xs ≡ length xs
    → distinct (insert a xs) ≡ length (insert a xs)
unfolding insert distinct
insert-distinct a xs h = ground arith

module _ {R S : Type 0} where
  -- A success keeps the state valid, whatever log it comes from.
  pub add_success-IsValid :
      (qs : QuorumState R S) (strategy : List StrategyMember) (i : ℕ) (response : R) (sct : S)
      → IsValid strategy qs
      → IsValid strategy (add_success qs strategy i response sct)
  unfolding add_success contains
  add_success-IsValid qs strategy i response sct v =
      let ms = collected strategy qs.strategy_indices in
      let split = collected-append strategy qs.strategy_indices (i ∷ []) in
      record {
        responses_parallel = omega (
          arith,
          v,
          length-append qs.responses (response ∷ []),
          length-append qs.strategy_indices (i ∷ []),
        );
        scts_parallel = omega (
          arith,
          v,
          length-append qs.scts (sct ∷ []),
          length-append qs.strategy_indices (i ∷ []),
        );
        operators_once =
            insert-distinct (member_at strategy i).operator qs.operators v.operators_once;
        operators_exact = λ a.
            rw
              (
                split,
                operators_of-append ms (member_at strategy i ∷ []),
                contains-append a (operators_of ms) ((member_at strategy i).operator ∷ []),
                contains-insert (member_at strategy i).operator a qs.operators,
                v.operators_exact a,
              )
              (ground arith);
        rfc6962_exact =
            rw (split, has_type-append rfc6962 ms (member_at strategy i ∷ []), v.rfc6962_exact)
              (ground arith);
        static_exact =
            rw (split, has_type-append static ms (member_at strategy i ∷ []), v.static_exact)
              (ground arith);
      }
