-- ===== src/Server/Submission/Repeat.antt =====
-- tako_vm/server/app.py: a request that is sent again with its idempotency key.
use mathlib.Core.Option.{some-injective}
use tako_vm.Prelude.{
  String, Option, some, true, false, List, ◌≡◌, refl, sym, ap, ◌∙◌, arith, str_eq, eq_refl, get,
}
use tako_vm.Storage.Columns.{Column, Value, Row, policy}
use tako_vm.Storage.Records.{Table, holds}
use tako_vm.Storage.Effects.{Statement, perform_all}
use tako_vm.Storage.Identity.{is_identity, perform_all-identity}
use tako_vm.Storage.Unique.{IsUnique, perform_all-IsUnique}
use tako_vm.Storage.Keys.{IsKeyed, perform_all-IsKeyed, get_by_unique}
use tako_vm.Server.Submission.{
  ExecuteRequest, job, conflict, given_key, reuse, reply_for, check_key,
}

-- A record that keeps its submission's key and fingerprint, whatever statements run.
pub record IsSubmitted (t : Table) (id k f : String) : Type 0 where
  pub row : Row
  pub found : get t id ≡ some row
  pub id_column : row Column.execution_id ≡ some (Value.text id)
  pub key_column : row Column.idempotency_key ≡ some (Value.text k)
  pub print_column : row Column.idempotency_fingerprint ≡ some (Value.text f)

keeps :
    (t : Table) (ss : List Statement) (id : String) (c : Column) (row after : Row) (v : Value)
    → is_identity c ≡ true
    → get t id ≡ some row
    → row c ≡ some v
    → get (perform_all t ss) id ≡ some after
    → after c ≡ some v
keeps t ss id c row after v first found value here =
    let (later, at, e) = perform_all-identity t ss id c row v first found value in
    let same : later ≡ after = some-injective later after (sym at ∙ here) in rw (← same) e

pub perform_all-IsSubmitted :
    (t : Table) (ss : List Statement) (id k f : String)
    → IsSubmitted t id k f
    → IsSubmitted (perform_all t ss) id k f
unfolding policy
perform_all-IsSubmitted t ss id k f s =
    let (after, here, e) =
      perform_all-identity t ss id Column.execution_id s.row (Value.text id) refl s.found
        s.id_column in
    record {
      row = after;
      found = here;
      id_column = e;
      key_column =
          keeps t ss id Column.idempotency_key s.row after (Value.text k) refl s.found s.key_column
            here;
      print_column =
          keeps t ss id Column.idempotency_fingerprint s.row after (Value.text f) refl s.found
            s.print_column here;
    }

module _ (fingerprint : ExecuteRequest → String) (r : ExecuteRequest) (k : String)
    (has_key : given_key r.idempotency_key ≡ some k) where
  -- What the check of the key answers, where a record of the key is stored.
  found_reply :
      (t : Table) (id f : String)
      → IsKeyed t
      → IsUnique t
      → (s : IsSubmitted t id k f) → check_key fingerprint r t ≡ some (reuse (fingerprint r) s.row)
  unfolding check_key
  found_reply t id f keyed unique s =
      let held : holds k (s.row Column.idempotency_key) ≡ true = rw s.key_column (eq_refl k) in
      rw (has_key, reply_for) (rw (get_by_unique t id k s.row keyed unique s.found held) refl)

  same_payload :
      (t : Table) (id : String) (s : IsSubmitted t id k (fingerprint r))
      → reuse (fingerprint r) s.row ≡ job (some (Value.text id)) (s.row Column.status)
  same_payload t id s = rw (s.print_column, s.id_column) (ground (arith, eq_refl (fingerprint r)))

  -- A request that repeats a submission.
  pub check_key-repeated :
      (t : Table) (id : String) (ss : List Statement)
      → IsKeyed t
      → IsUnique t
      → IsSubmitted t id k (fingerprint r)
      → (status : Option Value) × (check_key fingerprint r (perform_all t ss)
          ≡ some (job (some (Value.text id)) status))
  check_key-repeated t id ss keyed unique s =
      let after = perform_all-IsSubmitted t ss id k (fingerprint r) s in
      (
        after.row Column.status,
        found_reply (perform_all t ss) id (fingerprint r) (perform_all-IsKeyed t ss keyed)
              (perform_all-IsUnique t ss unique) after
            ∙ ap some (same_payload (perform_all t ss) id after),
      )

  -- Let a table have each identifier once and each idempotency key in one row at most, and let a
  -- row hold a key with a fingerprint that is not empty. After any save_record,
  -- mark_record_running and reconcile_stale_records calls, a request with that key and another
  -- fingerprint is answered with the conflict.
  pub check_key-conflict :
      (t : Table) (id f : String) (ss : List Statement)
      → IsKeyed t
      → IsUnique t
      → IsSubmitted t id k f
      → str_eq f "" ≡ false
      → str_eq (fingerprint r) f ≡ false
      → check_key fingerprint r (perform_all t ss) ≡ some conflict
  check_key-conflict t id f ss keyed unique s filled other =
      let after = perform_all-IsSubmitted t ss id k f s in
      found_reply (perform_all t ss) id f (perform_all-IsKeyed t ss keyed)
        (perform_all-IsUnique t ss unique) after
      ∙ rw (reuse, after.print_column) (ground (arith, filled, other))
