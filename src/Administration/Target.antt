-- ===== src/Administration/Target.antt =====
-- Into which bank a retain request may be approved (memory_router/admin.py).
pub mod Writes
use hindsight_memory_router.Json.{Json, Fields, null, boolean, integer, real, string, array, object}
use hindsight_memory_router.Common.{
  arith, ◌≡◌, refl, inl, inr, Bool-cases, Option-cases, Result-cases, eq_iff, String, true, Option,
  some, none, ok, opt_eq, ◌==◌, ◌&&◌, ◌||◌,
}
use hindsight_memory_router.Quarantine.{Item, status_eq, status_of_eq, review_side_effect_completed}
use hindsight_memory_router.Policy.{lookup_field, or_null}
use hindsight_memory_router.Principals.{lookup}
use hindsight_memory_router.Administration.{Service}
use hindsight_memory_router.Administration.Approval.{
  retain_target, new_target, target_by_mode, checked_target, legacy_retain_bank, is_retain_granted,
  non_empty_text, is_optional_text, mode_of,
}

-- why an item of a writer may be written to a bank: the write was announced and confirmed there
-- before; the bank is the one now registered for the writer; or the row names the bank and the
-- writer, a principal, now has the grant for it
pub data IsAuthorized {W : Type 0} (service : Service W) (item : Item) (writer_id bank : String)
    : Type 0 where
  completed :
      item.status ≡ review_side_effect_completed
      → item.bank_id ≡ some bank
      → IsAuthorized service item writer_id bank
  registered :
      lookup writer_id service.write_banks ≡ some bank → IsAuthorized service item writer_id bank
  granted :
      item.bank_id ≡ some bank
      → is_retain_granted service writer_id bank ≡ true
      → IsAuthorized service item writer_id bank

opt_eq-some : (t : String) (o : Option String) → opt_eq (some t) o ≡ true → o ≡ some t
opt_eq-some t none h = absurd (ground arith)
opt_eq-some t (some u) h = ground (arith, eq_iff t u)

module _ {W : Type 0} (service : Service W) (item : Item) where
  legacy_registered :
      (writer_id bank : String)
      → legacy_retain_bank service writer_id ≡ ok bank
      → lookup writer_id service.write_banks ≡ some bank
  unfolding legacy_retain_bank
  legacy_registered writer_id bank h = elim (Option-cases (lookup writer_id service.write_banks)) [
    | inl missing ↦ absurd (ground arith)
    | inr (b, found) ↦ ground arith
  ]

  checked_target-IsAuthorized :
      (writer_id mode target bank : String)
      → checked_target service item writer_id mode target ≡ ok bank
      → IsAuthorized service item writer_id bank
  unfolding checked_target
  checked_target-IsAuthorized writer_id mode target bank h =
      elim (Bool-cases (opt_eq (some target) item.bank_id)) [
        | inr other ↦ absurd (ground arith)
        | inl own ↦
            let stored = opt_eq-some target item.bank_id own in
            elim (Bool-cases (mode == "principal")) [
              | inl p ↦ elim (Bool-cases (is_retain_granted service writer_id target)) [
                | inr denied ↦ absurd (ground arith)
                | inl allowed ↦ granted (ground arith) (ground arith)
              ]
              | inr l ↦ elim (Result-cases (legacy_retain_bank service writer_id)) [
                | inr (x, e) ↦ absurd (ground arith)
                | inl (current, e) ↦ elim (Bool-cases (current == target)) [
                  | inr moved ↦ absurd (ground arith)
                  | inl same ↦
                      registered
                        (legacy_registered writer_id bank (ground (arith, eq_iff current target)))
                ]
              ]
            ]
      ]

  target_by_mode-IsAuthorized :
      (target : Json) (writer_id mode bank : String)
      → target_by_mode service item target writer_id mode ≡ ok bank
      → IsAuthorized service item writer_id bank
  unfolding target_by_mode
  target_by_mode-IsAuthorized target writer_id mode bank h =
      elim (Bool-cases
        ((mode == "legacy") && (item.reason == "unknown_writer") && is_optional_text target none)) [
          | inl old ↦ registered (legacy_registered writer_id bank (ground arith))
          | inr new ↦ elim (Option-cases (non_empty_text (some target))) [
            | inl missing ↦ absurd (ground arith)
            | inr (t, e) ↦ checked_target-IsAuthorized writer_id mode t bank (ground arith)
          ]
        ]

  by_mode :
      (payload : Fields) (writer_id bank : String) (mode : Json)
      → mode_of (or_null (lookup_field "identity_mode" payload)) (item.reason == "unknown_writer")
        ≡ mode
      → new_target service item payload writer_id ≡ ok bank
      → IsAuthorized service item writer_id bank
  unfolding new_target
  by_mode payload writer_id bank null e h = absurd (ground arith)
  by_mode payload writer_id bank (boolean b) e h = absurd (ground arith)
  by_mode payload writer_id bank (integer s n) e h = absurd (ground arith)
  by_mode payload writer_id bank (real f t) e h = absurd (ground arith)
  by_mode payload writer_id bank (array xs) e h = absurd (ground arith)
  by_mode payload writer_id bank (object fs) e h = absurd (ground arith)
  by_mode payload writer_id bank (string mode) e h =
      elim (Bool-cases ((mode == "legacy") || (mode == "principal"))) [
        | inr other ↦ absurd (ground arith)
        | inl known ↦
            target_by_mode-IsAuthorized (or_null (lookup_field "target_bank" payload)) writer_id
              mode bank (ground arith)
      ]

  -- The target of a retain request is settled only for the writer that the row names, and to a bank
  -- for which the write is authorized.
  pub retain_target-IsAuthorized :
      (payload : Fields) (writer_id bank : String)
      → retain_target service item payload writer_id ≡ ok bank
      → (item.writer_id ≡ some writer_id) × IsAuthorized service item writer_id bank
  unfolding retain_target
  retain_target-IsAuthorized payload writer_id bank h =
      let new = λ (e : new_target service item payload writer_id ≡ ok bank).
        by_mode payload writer_id bank
          (mode_of (or_null (lookup_field "identity_mode" payload))
            (item.reason == "unknown_writer"))
          refl e in
      elim (Bool-cases (opt_eq (some writer_id) item.writer_id)) [
        | inr other ↦ absurd (ground arith)
        | inl own ↦
            let named = opt_eq-some writer_id item.writer_id own in
            elim (Bool-cases (status_eq item.status review_side_effect_completed)) [
              | inr fresh ↦ (named, new (ground arith))
              | inl done ↦ elim (Option-cases item.bank_id) [
                | inl missing ↦ (named, new (ground arith))
                | inr (b, stored) ↦ (
                  named,
                  completed (status_of_eq item.status review_side_effect_completed done)
                      (ground arith),
                )
              ]
            ]
      ]
