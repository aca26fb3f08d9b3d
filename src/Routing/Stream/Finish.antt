-- ===== src/Routing/Stream/Finish.antt =====
-- The calls of a RoutedStream (internal/routing/stream.go) that have left their last section can finish.
use byos.Prelude.{◌≡◌, List, [], All}
use byos.Routing.Stream.{Effect}

-- Nothing is left to do of any call.
abbrev pub IsFinished : List (List Effect) → Type 0
IsFinished left = All (λ (todo : List Effect). todo ≡ []) left
