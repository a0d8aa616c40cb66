-- ===== src/Maintenance/Tests.antt =====
-- A table with an open item and a decided one, and the theorems at it.
use hindsight_memory_router.Common.{
  ◌+◌, value_error, arith, ◌≡◌, ◌≤◌, ◌⊎◌, refl, eq_iff, ℕ, String, Bool, none, some, Result, ok,
  err, [], ◌∷◌, member,
}
use hindsight_memory_router.Maintenance.{
  size_of, cleanup_params, preview_cleanup, preview_selected, cleanup, selected_reasons, has_reason,
  is_older, in_scope_of_cleanup, sweep_batch,
}
use hindsight_memory_router.Json.{Json, null, string, array, cons, nil}
use hindsight_memory_router.Common.Table.{find_where, select_where, count_where, sum_of}
use hindsight_memory_router.Quarantine.{
  Status, reviewed_blocked, Item, Db, recalled_memory, has_id, transaction,
}
use hindsight_memory_router.Review.Machine.{IsUnique}
use hindsight_memory_router.Maintenance.Laws.{remaining}
use hindsight_memory_router.Maintenance.Cleanup.{cleanup-preview_cleanup, cleanup-reviewable}
use hindsight_memory_router.Maintenance.Sweep.{IsSwept, sweep_batch-IsSwept}

abbrev waiting : Item
waiting = record {
  quarantine_id = "q_a";
  created_at = "2026-01-01T00:00:00.000Z";
  updated_at = "2026-01-01T00:00:00.000Z";
  kind = recalled_memory;
  reason = "suspicious_content";
  writer_id = some "agent";
  source = none;
  source_bank = some "bank";
  source_memory_id = some "m1";
  source_content_sha256 = none;
  dedupe_key = none;
  bank_id = none;
  sha256 = "aa";
  envelope = some "{}";
  encrypted_bytes = 2;
  status = Status.pending;
  postpone_count = 0;
  requarantine_count = 0;
  expires_at = some "2026-01-02T00:00:00.000Z";
}

abbrev decided : Item
decided = record waiting {
  quarantine_id = "q_b";
  status = reviewed_blocked;
  envelope = none;
  encrypted_bytes = 0;
}

abbrev db : Db
db = record { items = waiting ∷ decided ∷ []; events = [] }

db-IsUnique : IsUnique db.items
unfolding count_where
db-IsUnique j = ground (arith, eq_iff "q_a" j, eq_iff "q_b" j, eq_iff "q_a" "q_b")

abbrev at : String
at = "2026-01-03T00:00:00.000Z"

no_time : Json → Result (String × Bool)
no_time v = err (value_error "time")

abbrev chosen : Json
chosen = array (cons (string "suspicious_content") nil)

previewed : preview_cleanup no_time "all" chosen null db ≡ (ok (1, 2), db)
unfolding preview_cleanup preview_selected cleanup_params selected_reasons has_reason is_older
    in_scope_of_cleanup transaction member count_where sum_of select_where
previewed = refl

cleanup-preview_cleanup_example :
    (p : Item → Bool) × (db' : Db) × (cleanup_params no_time "all" chosen null ≡ ok p)
    × (cleanup no_time "all" chosen null [] 1 at none db ≡ (ok (1, 2), db'))
    × (find_where (has_id "q_b") db'.items ≡ remaining p (find_where (has_id "q_b") db.items))
cleanup-preview_cleanup_example =
    cleanup-preview_cleanup no_time "all" chosen null [] at none db db-IsUnique 1 2 db "q_b"
      previewed

cleanup-reviewable_example :
    (find_where (has_id "q_b") (cleanup no_time "all" chosen null [] 1 at none db).1.items
      ≡ some decided)
    × (((c : ℕ × ℕ) × ((cleanup no_time "all" chosen null [] 1 at none db).0 ≡ ok c))
        ⊎ ((cleanup no_time "all" chosen null [] 1 at none db).1 ≡ db))
unfolding find_where
cleanup-reviewable_example =
    cleanup-reviewable no_time "all" chosen null [] at none db db-IsUnique 1 "q_b" decided refl refl

sweep_batch-IsSwept_example :
    (n : ℕ) × (db' : Db) × (sweep_batch 1000 at db ≡ (ok n, db'))
    × (n ≤ 1000)
    × (size_of db.items ≡ size_of db'.items + n)
    × IsSwept at 1000 n (find_where (has_id "q_a") db.items) (find_where (has_id "q_a") db'.items)
sweep_batch-IsSwept_example = sweep_batch-IsSwept 1000 at db db-IsUnique "q_a"
