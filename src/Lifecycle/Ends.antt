-- ===== src/Lifecycle/Ends.antt =====
-- clienthandler.go: however the goroutines of requests interleave, each request ends once, and its stream id
-- is free before anything is sent.
use zdm_proxy.Prelude.{ℕ, ◌+◌, List, [], ◌∷◌, int_eq, nat_eq, eqb, if◌then◌else◌}
use zdm_proxy.RequestInfo.{RequestInfo}
use zdm_proxy.Lifecycle.{Outcome, answered, failed, closed}

-- How often the client or the custom channel of the request at the address got a frame.
abbrev pub answers_of : ℕ → List (ℕ × Outcome) → ℕ
answers_of ctx [] = 0
answers_of ctx ((at, answered f) ∷ rest) = (if eqb at ctx then 1 else 0) + answers_of ctx rest
answers_of ctx ((at, failed) ∷ rest) = answers_of ctx rest
answers_of ctx ((at, closed) ∷ rest) = answers_of ctx rest
