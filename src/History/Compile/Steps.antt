-- ===== src/History/Compile/Steps.antt =====
-- One round of the compiler's loop, taken apart: what it checked, and the state that it leaves.
use zch_coding_agent.Base.{
  ℕ, ◌<◌, ◌≡◌, Bool, true, false, not, ◌||◌, Option, List, ◌∷◌, arith, leb, ◌==◌, nat_eq, string_eq,
  Result, ok, err, ◌>>=◌, ◌>>◌, throw_if, >>=-eq-ok, throw_if-eq-ok, String,
}
use zch_coding_agent.Message.{
  MessageRecord, Platform, contains, map_error, assert_message_record_semantics,
}
use zch_coding_agent.History.Compile.{
  Scan, CompileError, semantics, Pairing, is_legacy, check_epoch, pair_tools, check_record,
  scan_step, schema_invalid, legacy_tool_result, multiple_sessions, identity_order,
}

module _ (p : Platform) (schema_valid : MessageRecord → Bool) where
  pub record Accepted (r : MessageRecord) : Type 0 where
    pub fits_schema : schema_valid r ≡ true
    pub has_semantics : assert_message_record_semantics p r ≡ ok tt
    pub is_current : is_legacy r.body ≡ false

  map_error-eq-ok {ℓ κ μ} :
      {E : Type κ} {F : Type μ} {A : Type ℓ} (f : E → F) (m : Result E A) {a : A}
      → map_error f m ≡ ok a
      → m ≡ ok a
  map_error-eq-ok f (ok a) h = cc
  map_error-eq-ok f (err e) h = cc

  check_record-Accepted : (r : MessageRecord) → check_record p schema_valid r ≡ ok tt → Accepted r
  unfolding check_record
  check_record-Accepted r h =
      let (fits, h1) = throw_if-eq-ok (not (schema_valid r)) schema_invalid _ h in
      let (u, sem, h2) =
        >>=-eq-ok (map_error semantics (assert_message_record_semantics p r))
          (λ _. throw_if (is_legacy r.body) legacy_tool_result) h1 in
      record {
        fits_schema = ground arith;
        has_semantics = map_error-eq-ok semantics (assert_message_record_semantics p r) sem;
        is_current = ground arith;
      }

  Accepted-check_record : (r : MessageRecord) → Accepted r → check_record p schema_valid r ≡ ok tt
  unfolding check_record
  Accepted-check_record r a = ground arith

  module _ (session : String) (active : List MessageRecord) (st : Scan) (r : MessageRecord) where
    pub record Steps (next : Scan) : Type 0 where
      pub accepted : Accepted r
      pub same_session : r.session_id ≡ session
      pub later : st.previous_seq < r.seq
      pub new_id : contains r.id st.ids ≡ false
      pub epoch : check_epoch active st.epoch_boundary r ≡ ok next.epoch_boundary
      pub paired :
          pair_tools st.calls st.pending r.body
          ≡ ok (record { calls = next.calls; pending = next.pending })
      pub ids_after : next.ids ≡ r.id ∷ st.ids
      pub seq_after : next.previous_seq ≡ r.seq

    abbrev after_pairing : Option ℕ → Pairing → Result CompileError Scan
    after_pairing boundary pairing = ok (record {
      ids = r.id ∷ st.ids;
      calls = pairing.calls;
      previous_seq = r.seq;
      pending = pairing.pending;
      epoch_boundary = boundary;
    })

    abbrev after_epoch : Option ℕ → Result CompileError Scan
    after_epoch boundary = pair_tools st.calls st.pending r.body >>= after_pairing boundary

    abbrev after_identity : Result CompileError Scan
    after_identity = check_epoch active st.epoch_boundary r >>= after_epoch

    abbrev after_session : Result CompileError Scan
    after_session =
        throw_if (leb r.seq st.previous_seq || contains r.id st.ids) identity_order
        >> after_identity

    abbrev after_record : Unit {0} → Result CompileError Scan
    after_record u = throw_if (not (r.session_id == session)) multiple_sessions >> after_session

    pub scan_step-Steps :
        (next : Scan) → scan_step p schema_valid session active st r ≡ ok next → Steps next
    unfolding scan_step
    scan_step-Steps next h =
        let (u, good, h1) = >>=-eq-ok (check_record p schema_valid r) after_record h in
        let (same, h2) =
          throw_if-eq-ok (not (r.session_id == session)) multiple_sessions after_session h1 in
        let (fresh, h3) =
          throw_if-eq-ok (leb r.seq st.previous_seq || contains r.id st.ids) identity_order
            after_identity h2 in
        let (boundary, epoch, h4) =
          >>=-eq-ok (check_epoch active st.epoch_boundary r) after_epoch h3 in
        let (pairing, paired, h5) =
          >>=-eq-ok (pair_tools st.calls st.pending r.body) (after_pairing boundary) h4 in
        record {
          accepted = check_record-Accepted r good;
          same_session = ground (arith, string_eq.same_iff r.session_id session);
          later = ground arith;
          new_id = ground arith;
          epoch = ground arith;
          paired = ground arith;
          ids_after = ground arith;
          seq_after = ground arith;
        }

    pub Steps-scan_step :
        (next : Scan) → Steps next → scan_step p schema_valid session active st r ≡ ok next
    unfolding scan_step
    Steps-scan_step next s =
        rw (Accepted-check_record r s.accepted)
          (ground (arith, string_eq.same_iff r.session_id session))
