-- ===== src/Deployments/Tests.antt =====
-- A model that is put out for a lease and comes back.
use looma.Base.Sort.{insert_sorted, sort_by}
use looma.Base.Filter.{filter}
use looma.Base.Dict.{insert, lookup}
use looma.Base.{
  if◌then◌else◌, is_some, ◌==◌, contains, string_eq, nat_eq, ℕ, String, ◌≡◌, refl, true, not, ◌&&◌,
  none, some, List, [], ◌∷◌, map,
}
use looma.Deployments.{
  restored, is_closed, waiting, update_rows, set_protected, forget, Deployments, remember,
  protected_ids, mark_evicted, list, evicted_by,
}
use looma.Deployments.Return.{mark_evicted-evicted_by, names}

rows : Deployments ℕ
unfolding remember set_protected update_rows lookup insert string_eq
rows =
    (set_protected "g2" true
      (remember "g2" "qwen" 12 none (remember "g1" "llama" 11 (some 4) []))).1

kept : protected_ids rows ≡ "g2" ∷ "qwen" ∷ []
unfolding rows protected_ids
kept = refl

after : Deployments ℕ
unfolding rows mark_evicted
after = mark_evicted ("g1" ∷ []) 9 50 rows

found : map (λ e. e.0) (evicted_by 9 after) ≡ "g1" ∷ []
unfolding after evicted_by filter sort_by insert_sorted
found = refl

listed : map (λ e. e.0) (list (forget "g2" after)) ≡ "g1" ∷ []
unfolding after list forget filter
listed = refl

again : map (λ e. e.1.account_id) (list (remember "g1" "llama" 11 none after)) ≡ some 4 ∷ none ∷ []
unfolding after list filter
again = refl

abbrev out : List String
out = "g1" ∷ []

abbrev first : String
first = "g1"

mark_evicted-evicted_by_example :
    let rows' = mark_evicted out 9 50 rows in
    (names (evicted_by 9 rows') first ≡ (
      if contains out first then is_some (lookup first rows) else names (evicted_by 9 rows) first))
    × (contains out first ≡ true
        → names (waiting [] rows') first ≡ (is_some (lookup first rows) && is_closed [] 9))
    × (names (evicted_by 9 (restored first rows')) first
        ≡ (not (first == first) && names (evicted_by 9 rows') first))
unfolding rows
mark_evicted-evicted_by_example =
    mark_evicted-evicted_by out 9 50 9 [] rows first first (refl, (refl, tt))
