-- ===== src/Consumer/Tests.antt =====
-- A worker with two jobs, of which one ends while the worker closes, and one in the loop after it.
use content_publishing_servi.Common.{[], ◌∷◌, ◌≡◌, refl}
use content_publishing_servi.Consumer.{on_module_destroy, closes, returned, completed}

two_delays :
    on_module_destroy
      (closes 20 (completed "b" ∷ []))
      ([] ∷ (completed "a" ∷ []) ∷ [])
      ("a" ∷ "b" ∷ [])
    ≡ returned 620 []
unfolding on_module_destroy
two_delays = refl
