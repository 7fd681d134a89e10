-- ===== src/History/Compile/Canonical.antt =====
-- The compiler of histories, as a whole.
use zch_coding_agent.Base.{
  ◌≡◌, refl, sym, subst, ◌≢◌, ◌↔◌, inl, inr, Bool, none, List, [], ◌∷◌, arith, leb, Bool-cases,
  nat_eq, string_eq, Result, ok, ◌>>◌, throw_if, >>=-eq-ok, throw_if-eq-ok, String,
}
use mathlib.Core.List.{Perm}
use mathlib.Core.List.Perm
use zch_coding_agent.Message.{MessageRecord, Platform}
use zch_coding_agent.History.Compile.{
  Scan, CompileError, CompiledCanonicalHistory, scan, start, compile_active, compile, is_some,
  active_records, sort_by_seq, insert_by_seq, ends_inside_batch,
}
use zch_coding_agent.History.Compile.Epochs.{Epoch-Anchored, Anchored-Epoch}
use zch_coding_agent.History.Compile.Sound.{
  Runs, Runs-Accepted, Runs-Ascending, Runs-ids, Runs-Epoch, Runs-calls, Runs-Continues,
}
use zch_coding_agent.History.Compile.Complete.{Ready-Runs}
use zch_coding_agent.History.Compile.Grammar.{IsCanonical}

insert_by_seq-perm :
    (r : MessageRecord) (rs : List MessageRecord) → Perm (insert_by_seq r rs) (r ∷ rs)
unfolding insert_by_seq
insert_by_seq-perm r [] = Perm.refl (r ∷ [])
insert_by_seq-perm r (s ∷ ss) = elim (Bool-cases (leb r.seq s.seq)) [
  | inl first ↦ rw first (Perm.refl (r ∷ (s ∷ ss)))
  | inr later ↦ rw later (Perm.trans (Perm.cons s (insert_by_seq-perm r ss)) (Perm.swap r s ss))
]

sort_by_seq-perm : (rs : List MessageRecord) → Perm (sort_by_seq rs) rs
unfolding sort_by_seq
sort_by_seq-perm [] = Perm.refl []
sort_by_seq-perm (r ∷ rs) =
    Perm.trans (insert_by_seq-perm r (sort_by_seq rs)) (Perm.cons r (sort_by_seq-perm rs))

module _ (p : Platform) (schema_valid : MessageRecord → Bool) where
  Runs-IsCanonical :
      (session : String) (rs : List MessageRecord) (end : Scan)
      → Runs p schema_valid session rs start rs end
      → end.pending ≡ none
      → IsCanonical p schema_valid session rs
  Runs-IsCanonical session rs end h e =
      let (accepted, one_session) = Runs-Accepted p schema_valid session rs rs start end h in
      record {
        accepted = accepted;
        one_session = one_session;
        ascending = Runs-Ascending p schema_valid session rs rs start end h;
        distinct_ids = Runs-ids p schema_valid session rs rs start end h;
        anchored = Epoch-Anchored rs (Runs-Epoch p schema_valid session rs rs start end h);
        turns = Runs-Continues p schema_valid session rs rs start end h e;
        distinct_calls = Runs-calls p schema_valid session rs rs start end h;
      }

  IsCanonical-Runs :
      (session : String) (rs : List MessageRecord)
      → IsCanonical p schema_valid session rs
      → (end : Scan) × Runs p schema_valid session rs start rs end × (end.pending ≡ none)
  IsCanonical-Runs session rs c = Ready-Runs p schema_valid session rs rs start [] [] (record {
    whole = refl;
    accepted = c.accepted;
    one_session = c.one_session;
    ascending = c.ascending;
    ids = c.distinct_ids;
    epoch = Anchored-Epoch rs c.anchored;
    above = tt;
    pending = refl;
    owes = (rs, refl, c.turns);
    calls = c.distinct_calls;
  })

  -- What a compiled history says of the active records that it was made from.
  pub record Compiles (hash : List MessageRecord → String) (active : List MessageRecord)
      (c : CompiledCanonicalHistory) : Type 0 where
    pub nonempty : active ≢ []
    pub all_messages : c.messages ≡ active
    pub hashed : c.source_hash ≡ hash active
    pub canonical : IsCanonical p schema_valid c.session_id active

  compile_active-Compiles :
      (hash : List MessageRecord → String) (rs : List MessageRecord) (c : CompiledCanonicalHistory)
      → compile_active p schema_valid hash rs ≡ ok c
      → Compiles hash rs c
  unfolding compile_active
  compile_active-Compiles hash [] c h = absurd (ground arith)
  compile_active-Compiles hash (r ∷ rs) c h =
      let (end, runs, h') =
        >>=-eq-ok (scan p schema_valid r.session_id (r ∷ rs) start (r ∷ rs))
          (λ (st : Scan). throw_if (is_some st.pending) ends_inside_batch >> done) h in
      let (complete, same) = throw_if-eq-ok (is_some end.pending) ends_inside_batch done h' in
      let session : r.session_id ≡ c.session_id = ground arith in
      record {
        nonempty = λ e. cc;
        all_messages = ground arith;
        hashed = ground arith;
        canonical =
            subst (λ s. IsCanonical p schema_valid s (r ∷ rs)) session
              (Runs-IsCanonical r.session_id (r ∷ rs) end runs (ground arith));
      }
    where
      done : Result CompileError CompiledCanonicalHistory
      done =
          ok (record { session_id = r.session_id; messages = r ∷ rs; source_hash = hash (r ∷ rs) })

  Compiles-compile_active :
      (hash : List MessageRecord → String) (rs : List MessageRecord) (c : CompiledCanonicalHistory)
      → Compiles hash rs c
      → compile_active p schema_valid hash rs ≡ ok c
  unfolding compile_active
  Compiles-compile_active hash [] c h = absurd (h.nonempty refl)
  Compiles-compile_active hash (r ∷ rs) c h =
      let session : c.session_id ≡ r.session_id = sym h.canonical.one_session.0 in
      let (end, runs, e) =
        IsCanonical-Runs r.session_id (r ∷ rs)
          (subst (λ s. IsCanonical p schema_valid s (r ∷ rs)) session h.canonical) in
      rw runs (ground (arith, session, h.all_messages, h.hashed))

  -- A history compiles, and gives `c`, exactly when its active records, in the order of their
  -- sequence numbers, are not empty and canonical for the session of `c`: accepted one by one, of
  -- one session, with ascending sequence numbers and different ids, with at most one epoch anchor
  -- whose boundary lies below all of them, with the results of each turn's calls directly behind
  -- the turn and in order, and with no call id twice; `c` then holds those records and their hash.
  pub compile-Compiles_iff :
      (hash : List MessageRecord → String) (records : List MessageRecord)
      (c : CompiledCanonicalHistory)
      → (compile p schema_valid hash records ≡ ok c)
        ↔ Compiles hash (sort_by_seq (active_records records)) c
  unfolding compile
  compile-Compiles_iff hash records c = (
    compile_active-Compiles hash (sort_by_seq (active_records records)) c,
    Compiles-compile_active hash (sort_by_seq (active_records records)) c,
  )

  -- Compiling neither drops nor repeats nor changes an active record.
  pub compile-perm :
      (hash : List MessageRecord → String) (records : List MessageRecord)
      (c : CompiledCanonicalHistory)
      → compile p schema_valid hash records ≡ ok c
      → Perm c.messages (active_records records)
  compile-perm hash records c h =
      subst (λ ms. Perm ms (active_records records))
        (sym ((compile-Compiles_iff hash records c).0 h).all_messages)
        (sort_by_seq-perm (active_records records))
