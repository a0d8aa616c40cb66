-- ===== src/Maintenance/Cleanup.antt =====
-- A cleanup removes what its preview counted, and nothing that is under review or decided
-- (memory_router/maintenance.py).
use hindsight_memory_router.Common.{
  ◌⊎◌, http_error, arith, ◌≡◌, inl, inr, Bool-cases, Result-cases, ℕ, String, Bool, not, true,
  false, Option, some, ok, err, Result, ◌==◌, ◌&&◌, ◌||◌, List, Error, nat_eq,
}
use mathlib.Core.Path.{subst}
use hindsight_memory_router.Json.{Json}
use hindsight_memory_router.Common.Table.{find_where, select_where, count_where, sum_of}
use hindsight_memory_router.Quarantine.{
  Item, Db, Status, Detail, has_id, transaction, reviewable, in_review, final,
}
use hindsight_memory_router.Review.Machine.{IsUnique}
use hindsight_memory_router.Maintenance.{
  cleanup_selected, preview_selected, cleanup_params, preview_cleanup, cleanup, in_scope_of_cleanup,
  has_reason, is_older, parsed_reasons, parsed_cutoff,
}
use hindsight_memory_router.Maintenance.Laws.{
  dropped, logged, delete_rows_done, size_of-select_where, dropped-select_where, remaining,
}

open_in_scope : (scope : String) (s : Status) → not (in_review s || final s) ≡ reviewable s
open_in_scope scope s = ground arith

-- what the filter selects is reviewable
cleanup_params-reviewable :
    (parse_cutoff : Json → Result (String × Bool)) (scope : String) (chosen older_than : Json)
    (p : Item → Bool) (item : Item)
    → cleanup_params parse_cutoff scope chosen older_than ≡ ok p
    → p item ≡ true
    → reviewable item.status ≡ true
unfolding cleanup_params in_scope_of_cleanup
cleanup_params-reviewable parse_cutoff scope chosen older_than p item h q =
    elim (Bool-cases ((scope == "pending") || (scope == "all"))) [
      | inr other ↦ absurd (ground arith)
      | inl known ↦ elim (Result-cases (parsed_reasons chosen)) [
        | inr (x, e) ↦ absurd (ground arith)
        | inl (ts, e) ↦ elim (Result-cases (parsed_cutoff parse_cutoff older_than)) [
          | inr (x, f) ↦ absurd (ground arith)
          | inl (c, f) ↦
              let same : p
                  ≡ (λ (i : Item). in_scope_of_cleanup scope i && has_reason ts i && is_older c i) =
                ground arith in
              let here : (in_scope_of_cleanup scope item && has_reason ts item && is_older c item)
                  ≡ true =
                subst (λ (g : Item → Bool). g item ≡ true) same q in
              elim (Bool-cases (scope == "pending")) [
                | inl one ↦ ground arith
                | inr all ↦ ground (arith, open_in_scope scope item.status)
              ]
        ]
      ]
    ]

-- the numbers of a selection
abbrev pub numbers : (Item → Bool) → List Item → ℕ × ℕ
numbers p items = (count_where p items, sum_of (λ i. i.encrypted_bytes) (select_where p items))

cleanup_selected_done :
    (p : Item → Bool) (details : List (String × Detail)) (at : String) (actor : Option String)
    (db : Db)
    → cleanup_selected p details (count_where p db.items) at actor db ≡ (
      ok (numbers p db.items),
      record {
        items = dropped (select_where p db.items) db.items;
        events = logged (λ row. details) actor at (select_where p db.items) db.events;
      },
    )
unfolding cleanup_selected transaction
cleanup_selected_done p details at actor db = ground (
  arith,
  size_of-select_where p db.items,
  delete_rows_done (λ row. details) actor at (select_where p db.items) db,
)

cleanup_selected_changed :
    (p : Item → Bool) (details : List (String × Detail)) (n : ℕ) (at : String)
    (actor : Option String) (db : Db)
    → nat_eq (count_where p db.items) n ≡ false
    → (e : Error) × (cleanup_selected p details n at actor db ≡ (err e, db))
unfolding cleanup_selected transaction
cleanup_selected_changed p details n at actor db h =
    (http_error 409 "quarantine_cleanup_changed", ground (arith, size_of-select_where p db.items))

module _ (parse_cutoff : Json → Result (String × Bool)) (scope : String) (chosen older_than : Json)
    (details : List (String × Detail)) (at : String) (actor : Option String) (db : Db)
    (u : IsUnique db.items) where
  -- A cleanup that is confirmed with the count of its preview, on the table of the preview, goes
  -- through and reports the numbers of the preview; of the rows, exactly those that its filter
  -- selects are gone, and the others are as they were (from unique ids).
  pub cleanup-preview_cleanup :
      (n bytes : ℕ) (db1 : Db) (j : String)
      → preview_cleanup parse_cutoff scope chosen older_than db ≡ (ok (n, bytes), db1)
      → (p : Item → Bool) × (db' : Db) × (cleanup_params parse_cutoff scope chosen older_than
          ≡ ok p)
        × (cleanup parse_cutoff scope chosen older_than details n at actor db
            ≡ (ok (n, bytes), db'))
        × (find_where (has_id j) db'.items ≡ remaining p (find_where (has_id j) db.items))
  unfolding preview_cleanup preview_selected cleanup transaction
  cleanup-preview_cleanup n bytes db1 j h =
      elim (Result-cases (cleanup_params parse_cutoff scope chosen older_than)) [
        | inr (x, e) ↦ absurd (ground arith)
        | inl (p, e) ↦
            let counted : count_where p db.items ≡ n = ground arith in
            let summed : sum_of (λ i. i.encrypted_bytes) (select_where p db.items) ≡ bytes =
              ground arith in
            (
              p,
              record {
                items = dropped (select_where p db.items) db.items;
                events = logged (λ row. details) actor at (select_where p db.items) db.events;
              },
              e,
              ground (arith, cleanup_selected_done p details at actor db),
              dropped-select_where j p db.items (u j),
            )
      ]

  -- Whatever its filter and the count that it expects, a cleanup leaves every row that is under
  -- review or decided as it is, and it returns, or it raises and leaves all rows (from unique ids).
  pub cleanup-reviewable :
      (n : ℕ) (j : String) (r : Item)
      → find_where (has_id j) db.items ≡ some r
      → reviewable r.status ≡ false
      → (find_where
            (has_id j)
            (cleanup parse_cutoff scope chosen older_than details n at actor db).1.items
          ≡ some r)
        × (((c : ℕ × ℕ) × ((cleanup parse_cutoff scope chosen older_than details n at actor db).0
                ≡ ok c))
            ⊎ ((cleanup parse_cutoff scope chosen older_than details n at actor db).1 ≡ db))
  unfolding cleanup
  cleanup-reviewable n j r found closed =
      elim (Result-cases (cleanup_params parse_cutoff scope chosen older_than)) [
        | inr (x, e) ↦ (ground arith, inr (ground arith))
        | inl (p, e) ↦ elim (Bool-cases (nat_eq (count_where p db.items) n)) [
          | inr other ↦
              let (y, raised) = cleanup_selected_changed p details n at actor db other in
              (ground arith, inr (ground arith))
          | inl same ↦
              let counted : n ≡ count_where p db.items = ground arith in
              let done = cleanup_selected_done p details at actor db in
              (
                elim (Bool-cases (p r)) [
                  | inl chosen_row ↦
                      let open_ =
                        cleanup_params-reviewable parse_cutoff scope chosen older_than p r e
                          chosen_row in
                      absurd (ground arith)
                  | inr kept ↦ let stays = dropped-select_where j p db.items (u j) in ground arith
                ],
                inl (numbers p db.items, ground arith),
              )
        ]
      ]
