-- ===== src/Swarm/Results/Cut.antt =====
-- What cutting the texts of a result does to it.
use zch_coding_agent.Base.{
  ℕ, ◌≤◌, ◌<◌, ◌≡◌, refl, sym, ap, ap₂, ◌∙◌, ◌≢◌, ◌↔◌, ◌⊎◌, inl, inr, Bool, true, false, not, ◌||◌,
  Option, none, some, List, [], ◌∷◌, map, arith, leb, leb→le, Bool-cases, length, nat_eq, string_eq,
  ==_refl, take,
}
use zch_coding_agent.Json.{JsonValue}
use zch_coding_agent.Swarm.Results.{
  SwarmAgentResult, SwarmRunResult, Platform, truncate_utf8, original, with_text, same_text,
  cut_entry, empty_entry, candidate, empty_text, longest,
}

-- The text `new` stands in `out` where `entry` has `old`: the response, or else the message of the
-- error. Nothing else differs but the mark of a cut.
pub data Places (entry out : SwarmAgentResult) (old new : List ℕ) : Type 0 where
  answer :
      out.fields ≡ entry.fields
      → entry.response ≡ some old
      → out.response ≡ some new
      → out.error_message ≡ entry.error_message
      → Places entry out old new
  failure :
      out.fields ≡ entry.fields
      → entry.response ≡ none
      → entry.error_message ≡ some old
      → out.response ≡ none
      → out.error_message ≡ some new
      → Places entry out old new
  textless :
      out.fields ≡ entry.fields
      → entry.response ≡ none
      → entry.error_message ≡ none
      → old ≡ []
      → out.response ≡ none
      → out.error_message ≡ none
      → Places entry out old new

-- A text of more bytes than the bound is cut to its first bytes, as many as the bound.
abbrev pub IsShortened : Platform → ℕ → List ℕ → List ℕ → Type 0
IsShortened p bound old new =
    ((length (p.encode old) ≤ bound) × (new ≡ old))
    ⊎ ((bound < length (p.encode old)) × (new ≡ p.decode (take bound (p.encode old))))

-- The text is cut, and marked so where it was marked before or has changed.
abbrev pub IsCut : Platform → ℕ → SwarmAgentResult → SwarmAgentResult → Type 0
IsCut p bound entry out =
    (old : List ℕ) × (new : List ℕ) × Places entry out old new
    × IsShortened p bound old new
    × ((out.truncated ≡ true) ↔ ((entry.truncated ≡ true) ⊎ (new ≢ old)))

abbrev pub IsEmptied : SwarmAgentResult → SwarmAgentResult → Type 0
IsEmptied entry out = (old : List ℕ) × Places entry out old [] × (out.truncated ≡ true)

abbrev pub Each :
    (SwarmAgentResult → SwarmAgentResult → Type 0)
    → List SwarmAgentResult
    → List SwarmAgentResult
    → Type 0
Each R [] [] = Unit
Each R (x ∷ xs) (y ∷ ys) = R x y × Each R xs ys
Each R _ _ = ⊥

-- Every entry is changed so, in place.
abbrev pub Changes :
    (SwarmAgentResult → SwarmAgentResult → Type 0) → SwarmRunResult → SwarmRunResult → Type 0
Changes R result out = (out.summary ≡ result.summary) × Each R result.results out.results

Each-map :
    (R : SwarmAgentResult → SwarmAgentResult → Type 0) (f : SwarmAgentResult → SwarmAgentResult)
    (xs : List SwarmAgentResult)
    → ((x : SwarmAgentResult) → R x (f x))
    → Each R xs (map f xs)
Each-map R f [] h = tt
Each-map R f (x ∷ xs) h = (h x, Each-map R f xs h)

parts-Places :
    (fields : JsonValue) (response error : Option (List ℕ)) (t marked : Bool) (text : List ℕ)
    → let entry : SwarmAgentResult = record {
      fields = fields;
      response = response;
      error_message = error;
      truncated = t;
    } in
      Places entry (with_text text marked entry) (original entry) text
      × ((with_text text marked entry).truncated ≡ marked)
unfolding with_text
parts-Places fields (some r) error t marked text = (answer refl refl refl refl, refl)
parts-Places fields none (some e) t marked text = (failure refl refl refl refl refl, refl)
parts-Places fields none none t marked text = (textless refl refl refl refl refl refl, refl)

with_text-Places :
    (text : List ℕ) (marked : Bool) (entry : SwarmAgentResult)
    → Places entry (with_text text marked entry) (original entry) text
      × ((with_text text marked entry).truncated ≡ marked)
with_text-Places text marked entry =
    parts-Places entry.fields entry.response entry.error_message entry.truncated marked text

parts-same :
    (fields : JsonValue) (response error : Option (List ℕ)) (t : Bool)
    → let entry : SwarmAgentResult = record {
      fields = fields;
      response = response;
      error_message = error;
      truncated = t;
    } in
      with_text (original entry) t entry ≡ entry
unfolding with_text
parts-same fields (some r) error t = refl
parts-same fields none (some e) t = refl
parts-same fields none none t = refl

with_text-same :
    (entry : SwarmAgentResult) → with_text (original entry) entry.truncated entry ≡ entry
with_text-same entry = parts-same entry.fields entry.response entry.error_message entry.truncated

same_text_refl : (s : List ℕ) → same_text s s ≡ true
same_text_refl [] = refl
same_text_refl (c ∷ s) = rw (==_refl c, same_text_refl s) refl

same_text→≡ : (s t : List ℕ) → same_text s t ≡ true → s ≡ t
same_text→≡ [] [] h = refl
same_text→≡ (c ∷ s) (d ∷ t) h =
    let first : c ≡ d = ground (arith, nat_eq.same_iff c d) in
    let rest : same_text s t ≡ true = ground arith in
    ap₂ (λ x xs. x ∷ xs) first (same_text→≡ s t rest)
same_text→≡ [] (d ∷ t) h = absurd cc
same_text→≡ (c ∷ s) [] h = absurd cc

true-false : true ≡ false → ⊥
true-false e = absurd cc

marked_iff :
    (b : Bool) (s t : List ℕ) → ((b || not (same_text s t)) ≡ true) ↔ ((b ≡ true) ⊎ (s ≢ t))
marked_iff true s t = ((λ e. inl refl), λ h. refl)
marked_iff false s t = elim (Bool-cases (same_text s t)) [
  | inl e ↦ rw e (
    (λ h. absurd (true-false (sym h))),
    λ h. elim h [ inl f ↦ absurd (true-false (sym f)) | inr n ↦ absurd (n (same_text→≡ s t e)) ],
  )
  | inr e ↦ rw e (
    (λ h. inr (λ q. true-false (sym (same_text_refl t) ∙ ap (λ x. same_text x t) (sym q) ∙ e))),
    λ h. refl,
  )
]

truncate_utf8-IsShortened :
    (p : Platform) (bound : ℕ) (old : List ℕ) → IsShortened p bound old (truncate_utf8 p old bound)
unfolding truncate_utf8
truncate_utf8-IsShortened p bound old = elim (Bool-cases (leb (length (p.encode old)) bound)) [
  | inl e ↦ inl (leb→le _ _ e, rw (truncate_utf8, e) refl)
  | inr e ↦ inr (ground arith, rw (truncate_utf8, e) refl)
]

cut_entry-IsCut :
    (p : Platform) (bound : ℕ) (entry : SwarmAgentResult)
    → IsCut p bound entry (cut_entry p bound entry)
unfolding cut_entry
cut_entry-IsCut p bound entry =
    let text = truncate_utf8 p (original entry) bound in
    let (placed, mark) =
      with_text-Places text (entry.truncated || not (same_text text (original entry))) entry in
    let (there, back) = marked_iff entry.truncated text (original entry) in
    (
      original entry,
      text,
      placed,
      truncate_utf8-IsShortened p bound (original entry),
      ((λ e. there (sym mark ∙ e)), λ h. mark ∙ back h),
    )

empty_entry-IsEmptied : (entry : SwarmAgentResult) → IsEmptied entry (empty_entry entry)
unfolding empty_entry
empty_entry-IsEmptied entry =
    let (placed, mark) = with_text-Places [] true entry in (original entry, placed, mark)

pub candidate-Changes :
    (p : Platform) (result : SwarmRunResult) (bound : ℕ)
    → Changes (IsCut p bound) result (candidate p result bound)
unfolding candidate
candidate-Changes p result bound =
    (refl, Each-map (IsCut p bound) (cut_entry p bound) result.results (cut_entry-IsCut p bound))

pub empty_text-Changes : (result : SwarmRunResult) → Changes IsEmptied result (empty_text result)
unfolding empty_text
empty_text-Changes result =
    (refl, Each-map IsEmptied empty_entry result.results empty_entry-IsEmptied)

truncate_utf8-same :
    (p : Platform) (bound : ℕ) (old : List ℕ)
    → length (p.encode old) ≤ bound
    → truncate_utf8 p old bound ≡ old
unfolding truncate_utf8
truncate_utf8-same p bound old h =
    let small : leb (length (p.encode old)) bound ≡ true = ground arith in
    rw (truncate_utf8, small) refl

mark_same : (b : Bool) (s : List ℕ) → (b || not (same_text s s)) ≡ b
mark_same true s = refl
mark_same false s = rw (same_text_refl s) refl

cut_entry-same :
    (p : Platform) (bound : ℕ) (entry : SwarmAgentResult)
    → length (p.encode (original entry)) ≤ bound
    → cut_entry p bound entry ≡ entry
unfolding cut_entry
cut_entry-same p bound entry h =
    let old = original entry in
    ap (λ text. with_text text (entry.truncated || not (same_text text old)) entry)
      (truncate_utf8-same p bound old h)
    ∙ ap (λ b. with_text old b entry) (mark_same entry.truncated old)
    ∙ with_text-same entry

map-same :
    (p : Platform) (bound : ℕ) (entries : List SwarmAgentResult)
    → longest p entries ≤ bound
    → map (cut_entry p bound) entries ≡ entries
map-same p bound [] h = refl
map-same p bound (entry ∷ entries) h =
    ap₂ (λ x xs. x ∷ xs) (cut_entry-same p bound entry (omega arith))
      (map-same p bound entries (omega arith))

-- At the length of the longest text nothing is cut.
pub candidate-longest :
    (p : Platform) (result : SwarmRunResult)
    → candidate p result (longest p result.results) ≡ result
unfolding candidate
candidate-longest p result =
    ap (λ rs. record result { results = rs })
      (map-same p (longest p result.results) result.results (omega arith))
