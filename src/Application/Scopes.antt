-- ===== src/Application/Scopes.antt =====
-- Every call of the administration needs the scope that its method and path are checked for
-- (memory_router/app.py).
use hindsight_memory_router.Dispatch.{group}
use mathlib.Core.Path.{subst}
use hindsight_memory_router.Application.Routes.{
  action_items, not_found, cleanup, stats, queue, other_item, act, read_item, AdminCall, ItemAction,
  scope_of, admin_call, item_call, items, action_of, acted,
}
use hindsight_memory_router.Json.{}
use hindsight_memory_router.Common.{
  arith, ◌≡◌, refl, sym, ap, eq_iff, inl, inr, ◌⊎◌, Bool-cases, Option-cases, String, true, false,
  Option, none, some, List, ◌==◌, ◌&&◌,
}
use hindsight_memory_router.Common.Action.{}
use hindsight_memory_router.Policy.Recall.Laws.{}
use hindsight_memory_router.Principals.{}
use hindsight_memory_router.Facade.{match_segments, split_path}
use hindsight_memory_router.Tokens.{}
use hindsight_memory_router.Application.{}

-- the scope that a call needs
abbrev pub needed : AdminCall → Option String
needed queue = some "read"
needed stats = some "read"
needed (read_item segment) = some "read"
needed cleanup = some "cleanup"
needed (act action segment) = some "review"
needed (other_item segment) = none
needed not_found = none

-- the call needs nothing, or the scope of the method and the path
abbrev pub IsScoped : String → String → AdminCall → Type 0
IsScoped method path call = (needed call ≡ none) ⊎ (needed call ≡ some (scope_of method path))

post_is_not_get : (method : String) → (method == "POST") ≡ true → (method == "GET") ≡ false
post_is_not_get method h = subst (λ m. (m == "GET") ≡ false) (sym ((eq_iff method "POST").0 h)) refl

scope_read : (method path : String) → (method == "GET") ≡ true → scope_of method path ≡ "read"
unfolding scope_of
scope_read method path h = rw h refl

scope_cleanup :
    (method path : String)
    → ((method == "POST") && (path == "/admin/quarantine/cleanup")) ≡ true
    → scope_of method path ≡ "cleanup"
unfolding scope_of
scope_cleanup method path h = rw (post_is_not_get method (ground arith), h) refl

scope_review :
    (method path : String)
    → (method == "POST") ≡ true
    → ((method == "POST") && (path == "/admin/quarantine/cleanup")) ≡ false
    → scope_of method path ≡ "review"
unfolding scope_of
scope_review method path p h = rw (post_is_not_get method p, h) refl

acted-IsScoped :
    (method path segment : String) (action : Option ItemAction)
    → ((method == "POST") && (path == "/admin/quarantine/cleanup")) ≡ false
    → IsScoped method path (acted method segment action)
acted-IsScoped method path segment none h = inl refl
acted-IsScoped method path segment (some action) h = elim (Bool-cases (method == "POST")) [
  | inr q ↦ inl (rw q refl)
  | inl q ↦ inr (rw q (ap some (sym (scope_review method path q h))))
]

item_call-IsScoped :
    (method path : String) (segments : List String)
    → ((method == "POST") && (path == "/admin/quarantine/cleanup")) ≡ false
    → IsScoped method path (item_call method segments)
unfolding item_call
item_call-IsScoped method path segments h = elim (Option-cases (match_segments items segments)) [
  | inr (groups, q) ↦ elim (Bool-cases (method == "GET")) [
    | inl g ↦ inr (rw (item_call, q, g) (ap some (sym (scope_read method path g))))
    | inr g ↦ inl (rw (item_call, q, g) refl)
  ]
  | inl q ↦ elim (Option-cases (match_segments action_items segments)) [
    | inl r ↦ inl (rw (item_call, q, r) refl)
    | inr (groups, r) ↦
        rw (item_call, q, r)
          (acted-IsScoped method path (group "item" groups) (action_of (group "action" groups)) h)
  ]
]

pub admin_call-IsScoped : (method path : String) → IsScoped method path (admin_call method path)
unfolding admin_call
admin_call-IsScoped method path =
    elim (Bool-cases ((method == "GET") && (path == "/admin/quarantine/queue"))) [
      | inl q ↦ inr (rw q (ap some (sym (scope_read method path (ground arith)))))
      | inr q ↦ elim (Bool-cases ((method == "GET") && (path == "/admin/quarantine/stats"))) [
        | inl r ↦ inr (rw (q, r) (ap some (sym (scope_read method path (ground arith)))))
        | inr r ↦ elim (Bool-cases ((method == "POST") && (path == "/admin/quarantine/cleanup"))) [
          | inl t ↦ inr (rw (q, r, t) (ap some (sym (scope_cleanup method path t))))
          | inr t ↦ rw (q, r, t) (item_call-IsScoped method path (split_path path) t)
        ]
      ]
    ]
