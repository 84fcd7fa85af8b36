-- ===== src/Submitter/Orchestrate/Kinds.antt =====
-- The operator and the log type of each member of a strategy, which a run never changes.
use ctsubmit.Prelude.{
  ℕ, zero, suc, ◌≡◌, refl, sym, ap, ◌∙◌, String, List, [], ◌∷◌, get_or, set, contains, string_eq,
  nat_eq,
}
use ctsubmit.Submitter.Types.{LogType, rfc6962, static, is_type, StrategyMember, member_at}
use ctsubmit.Submitter.Quorum.{QuorumState}
use ctsubmit.Submitter.Quorum.Invariant.{collected, operators_of, has_type, IsValid}
use ctsubmit.Submitter.Orchestrate.{set_outcome, set_time_taken, mark_cancelled}

abbrev pub kind : StrategyMember → String × LogType
kind m = (m.operator, m.log_type)

abbrev pub kinds : List StrategyMember → List (String × LogType)
kinds [] = []
kinds (m ∷ ms) = kind m ∷ kinds ms

-- A write of a member that keeps its kind.
pub kinds-set :
    (strategy : List StrategyMember) (i : ℕ) (m : StrategyMember)
    → kind m ≡ kind (member_at strategy i)
    → kinds (set strategy i m) ≡ kinds strategy
kinds-set [] i m h = refl
kinds-set (n ∷ ns) zero m h = ap (λ k. k ∷ kinds ns) h
kinds-set (n ∷ ns) (suc i) m h = ap (λ ks. kind n ∷ ks) (kinds-set ns i m h)

pub timed_kinds :
    (i d : ℕ) (strategy : List StrategyMember)
    → kinds (set_time_taken i d strategy) ≡ kinds strategy
timed_kinds i d strategy = kinds-set strategy i _ refl

pub noted_kinds :
    (i : ℕ) (o : String) (strategy : List StrategyMember)
    → kinds (set_outcome i o strategy) ≡ kinds strategy
noted_kinds i o strategy = kinds-set strategy i _ refl

pub kinds-mark_cancelled :
    (is : List ℕ) (strategy : List StrategyMember)
    → kinds (mark_cancelled is strategy) ≡ kinds strategy
unfolding mark_cancelled
kinds-mark_cancelled [] strategy = refl
kinds-mark_cancelled (i ∷ is) strategy =
    kinds-mark_cancelled is (set_outcome i "Submission cancelled (quorum met)" strategy)
    ∙ kinds-set strategy i _ refl

kind_at : List (String × LogType) → ℕ → String × LogType
kind_at ks i = get_or ks i ("", rfc6962)

kind-member_at :
    (strategy : List StrategyMember) (i : ℕ)
    → kind (member_at strategy i) ≡ kind_at (kinds strategy) i
unfolding kind_at
kind-member_at [] i = refl
kind-member_at (m ∷ ms) zero = refl
kind-member_at (m ∷ ms) (suc i) = kind-member_at ms i

-- Strategies of the same kinds have members of the same kinds at every index.
same_kind :
    (s t : List StrategyMember) (i : ℕ)
    → kinds s ≡ kinds t
    → kind (member_at s i) ≡ kind (member_at t i)
same_kind s t i h = kind-member_at s i ∙ (ap (λ ks. kind_at ks i) h ∙ sym (kind-member_at t i))

pub same_operators :
    (s t : List StrategyMember) (is : List ℕ)
    → kinds s ≡ kinds t
    → operators_of (collected s is) ≡ operators_of (collected t is)
same_operators s t [] h = refl
same_operators s t (i ∷ is) h = cc (ap (λ k. k.0) (same_kind s t i h), same_operators s t is h)

pub same_types :
    (type' : LogType) (s t : List StrategyMember) (is : List ℕ)
    → kinds s ≡ kinds t
    → has_type type' (collected s is) ≡ has_type type' (collected t is)
same_types type' s t [] h = refl
same_types type' s t (i ∷ is) h =
    cc (ap (λ k. is_type k.1 type') (same_kind s t i h), same_types type' s t is h)

module _ {R S : Type 0} where
  pub same-IsValid :
      (s t : List StrategyMember) (qs : QuorumState R S)
      → kinds s ≡ kinds t
      → IsValid s qs
      → IsValid t qs
  same-IsValid s t qs h v = record {
    responses_parallel = v.responses_parallel;
    scts_parallel = v.scts_parallel;
    operators_once = v.operators_once;
    operators_exact = λ a.
        v.operators_exact a ∙ ap (λ os. contains os a) (same_operators s t qs.strategy_indices h);
    rfc6962_exact = v.rfc6962_exact ∙ same_types rfc6962 s t qs.strategy_indices h;
    static_exact = v.static_exact ∙ same_types static s t qs.strategy_indices h;
  }
