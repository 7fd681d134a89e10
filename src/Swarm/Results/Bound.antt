-- ===== src/Swarm/Results/Bound.antt =====
-- The search for a bound.
use zch_coding_agent.Base.{
  ℕ, zero, suc, ◌+◌, ◌-◌, ◌/◌, ◌≤◌, ◌<◌, ◌≡◌, refl, sym, ap, ◌∙◌, leb→le, subst, ◌⊎◌, inl, inr,
  true, false, arith, ltb, ltb→lt, Bool-cases, nat_eq, string_eq, option_eq,
}
use zch_coding_agent.Swarm.Results.Cut.{
  IsCut, IsEmptied, Changes, candidate-Changes, empty_text-Changes, candidate-longest,
}
use zch_coding_agent.Swarm.Results.{
  SwarmRunResult, Platform, candidate, empty_text, fits, longest, search, bound_result,
}

true-false : true ≡ false → ⊥
true-false e = absurd cc

middle :
    (lower above : ℕ)
    → lower < above
    → (lower ≤ (lower + (above - 1)) / 2) × ((lower + (above - 1)) / 2 < above)
middle lower above h = (omega arith, omega arith)

all_tried : (lower above : ℕ) → lower ≤ above → ltb lower above ≡ false → above ≡ lower
all_tried lower above le h = ground arith

module _ (p : Platform) (result : SwarmRunResult) where
  -- What the search has so far: no bound below `lower` was tried with success, or the last one was.
  abbrev IsBest : ℕ → SwarmRunResult → Type 0
  IsBest zero best = best ≡ empty_text result
  IsBest (suc m) best = (best ≡ candidate p result m) × (fits p best ≡ true)

  abbrev IsEnd : ℕ → ℕ → Type 0
  IsEnd top above = (above ≡ top) ⊎ (fits p (candidate p result above) ≡ false)

  search-found :
      (top fuel lower above : ℕ) (best : SwarmRunResult)
      → above ≤ lower + fuel
      → lower ≤ above
      → above ≤ top
      → IsBest lower best
      → IsEnd top above
      → (m : ℕ) × (m ≤ top) × IsBest m (search p result fuel lower above best) × IsEnd top m
  unfolding search
  search-found top zero lower above best fuel order within b e =
      (lower, omega arith, b, subst (IsEnd top) (omega arith) e)
  search-found top (suc fuel) lower above best few order within b e =
      let mid = (lower + (above - 1)) / 2 in
      elim (Bool-cases (ltb lower above)) [
        | inr done ↦
            rw (search, done)
              (lower, omega arith, b, subst (IsEnd top) (all_tried lower above order done) e)
        | inl remains ↦
            let between = middle lower above (ltb→lt lower above remains) in
            elim (Bool-cases (fits p (candidate p result mid))) [
              | inl fine ↦
                  rw (search, remains, fine)
                    (search-found top fuel (suc mid) above (candidate p result mid) (omega arith)
                      (omega arith) within (refl, fine) e)
              | inr large ↦
                  rw (search, remains, large)
                    (search-found top fuel lower mid best (omega arith) (omega arith) (omega arith)
                      b (inr large))
            ]
      ]

-- How a result is bounded: not at all where it fits; else every text is cut at one bound, the result
-- fits, and what is cut at the next bound does not; or what is cut at the bound 0 does not fit, and
-- the texts are emptied.
pub data IsBounded (p : Platform) (result out : SwarmRunResult) : Type 0 where
  whole : p.json_bytes result ≤ 2_000_000 → out ≡ result → IsBounded p result out
  cut :
      (bound : ℕ) (next : SwarmRunResult)
      → 2_000_000 < p.json_bytes result
      → Changes (IsCut p bound) result out
      → p.json_bytes out ≤ 2_000_000
      → Changes (IsCut p (suc bound)) result next
      → 2_000_000 < p.json_bytes next
      → IsBounded p result out
  emptied :
      (shortest : SwarmRunResult)
      → 2_000_000 < p.json_bytes result
      → Changes (IsCut p 0) result shortest
      → 2_000_000 < p.json_bytes shortest
      → Changes IsEmptied result out
      → IsBounded p result out

module _ (p : Platform) (result : SwarmRunResult) where
  fits→≤ : (r : SwarmRunResult) → fits p r ≡ true → p.json_bytes r ≤ 2_000_000
  fits→≤ r h = leb→le _ _ h

  large→< : (r : SwarmRunResult) → fits p r ≡ false → 2_000_000 < p.json_bytes r
  large→< r h = ground arith

  -- The bound that is past every text is not the best one.
  past_every :
      (out : SwarmRunResult)
      → fits p result ≡ false
      → IsBest p result (suc (longest p result.results)) out
      → ⊥
  past_every out large (made, fine) =
      true-false (sym fine ∙ ap (fits p) (made ∙ candidate-longest p result) ∙ large)

  found-IsBounded :
      (out : SwarmRunResult) (m : ℕ)
      → fits p result ≡ false
      → m ≤ suc (longest p result.results)
      → IsBest p result m out
      → IsEnd p result (suc (longest p result.results)) m
      → IsBounded p result out
  found-IsBounded out zero large within b (inl top) = absurd (omega arith)
  found-IsBounded out zero large within b (inr end) =
      emptied (candidate p result 0) (large→< result large) (candidate-Changes p result 0)
        (large→< _ end) (subst (Changes IsEmptied result) (sym b) (empty_text-Changes result))
  found-IsBounded out (suc m) large within b (inl top) =
      absurd (past_every out large (subst (λ n. IsBest p result n out) top b))
  found-IsBounded out (suc m) large within (made, fine) (inr end) =
      cut m (candidate p result (suc m)) (large→< result large)
        (subst (Changes (IsCut p m) result) (sym made) (candidate-Changes p result m))
        (fits→≤ out fine) (candidate-Changes p result (suc m)) (large→< _ end)

  -- A job's result is handed on whole where its JSON has at most 2,000,000 bytes. Else the texts of
  -- all its entries are cut at one bound, each to its first bytes and marked where that changes it,
  -- nothing else is changed, the JSON has at most 2,000,000 bytes, and with the next higher bound it
  -- would have more. Where it has more at the bound 0, the texts are emptied and marked, and nothing
  -- is said of the size.
  pub bound_result-IsBounded : IsBounded p result (bound_result p result)
  unfolding bound_result
  bound_result-IsBounded =
      let above = suc (longest p result.results) in
      elim (Bool-cases (fits p result)) [
        | inl fine ↦ rw (bound_result, fine) (whole (fits→≤ result fine) refl)
        | inr large ↦
            let (m, within, best, end) =
              search-found p result above above 0 above (empty_text result) (omega arith)
                (omega arith) (omega arith) refl (inl refl) in
            rw (bound_result, large) (found-IsBounded _ m large within best end)
      ]
