-- ===== src/History/Compile/Epochs.antt =====
-- The epoch check of the compiler: one anchor, below every record.
use zch_coding_agent.Base.{
  ℕ, ◌<◌, ◌≡◌, refl, ◌⊎◌, inl, inr, false, Option, none, some, List, [], ◌∷◌, arith, Option-cases,
  nat_eq, string_eq, ok,
}
use zch_coding_agent.Base.Preds.{All}
use zch_coding_agent.Message.{MessageRecord}
use zch_coding_agent.History.Compile.{check_epoch, any_at_or_below, history_epoch_anchor_boundary}
use zch_coding_agent.History.Compile.Grammar.{boundaries, Anchored}

pub any_at_or_below-All :
    (b : ℕ) (rs : List MessageRecord) → any_at_or_below b rs ≡ false → All (λ r. b < r.seq) rs
unfolding any_at_or_below
any_at_or_below-All b [] h = tt
any_at_or_below-All b (r ∷ rs) h = (ground arith, any_at_or_below-All b rs (ground arith))

pub All-any_at_or_below :
    (b : ℕ) (rs : List MessageRecord) → All (λ r. b < r.seq) rs → any_at_or_below b rs ≡ false
unfolding any_at_or_below
All-any_at_or_below b [] h = refl
All-any_at_or_below b (r ∷ rs) (p, h) = ground (arith, All-any_at_or_below b rs h)

-- What the records from here on hold, given the epoch so far and all active records.
abbrev pub Epoch : List MessageRecord → Option ℕ → List MessageRecord → Type 0
Epoch active none rs =
    (boundaries rs ≡ []) ⊎ ((b : ℕ) × (boundaries rs ≡ b ∷ []) × (any_at_or_below b active ≡ false))
Epoch active (some b) rs = boundaries rs ≡ []

pub check_epoch-Epoch :
    (active : List MessageRecord) (epoch next : Option ℕ) (r : MessageRecord)
    (rs : List MessageRecord)
    → check_epoch active epoch r ≡ ok next
    → Epoch active next rs
    → Epoch active epoch (r ∷ rs)
unfolding check_epoch
check_epoch-Epoch active none next r rs h e =
    elim (Option-cases (history_epoch_anchor_boundary r.body)) [
      | inl plain ↦ ground arith
      | inr (b, anchor) ↦ ground arith
    ]
check_epoch-Epoch active (some b) next r rs h e =
    elim (Option-cases (history_epoch_anchor_boundary r.body)) [
      | inl plain ↦ ground arith
      | inr (b', anchor) ↦ ground arith
    ]

pub Epoch-Anchored : (rs : List MessageRecord) → Epoch rs none rs → Anchored rs
Epoch-Anchored rs (inl e) = inl e
Epoch-Anchored rs (inr (b, e, h)) = inr (b, e, any_at_or_below-All b rs h)

pub Anchored-Epoch : (rs : List MessageRecord) → Anchored rs → Epoch rs none rs
Anchored-Epoch rs (inl e) = inl e
Anchored-Epoch rs (inr (b, e, h)) = inr (b, e, All-any_at_or_below b rs h)
