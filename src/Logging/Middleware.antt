-- ===== src/Logging/Middleware.antt =====
-- `LoggingUnaryServerInterceptor` of pkg/grpc/middleware/logging.go. `peer_of` is peer.FromContext
-- with the address' text, `code_of` status.Code and `now` time.Now.
use csi_driver_ipfs.Base.{ℕ, ◌-◌, ◌≡◌, refl, Option, none, some, List, ◌∷◌, Result}
use csi_driver_ipfs.Text.{Text, lit}

pub data Line : Type 0 where
  started : Text → Text → Line
  finished : Text → Text → Text → ℕ → Line

-- The lines so far, the last one first.
pub record State (W : Type 0) : Type 0 where
  pub lines : List Line
  pub world : W

pub record Grpc (W C E A : Type 0) : Type 0 where
  pub peer_of : C → Option Text
  pub code_of : Result E A → Text
  pub now : W → ℕ

-- A gRPC handler: context and request to an answer.
abbrev pub Handler : Type 0 → Type 0 → Type 0 → Type 0 → Type 0 → Type 0
Handler W C Q E A = C → Q → W → Result E A × W

abbrev pub address_or_unknown : Option Text → Text
address_or_unknown none = lit "unknown"
address_or_unknown (some addr) = addr

module _ {W C Q E A : Type 0} (grpc : Grpc W C E A) where
  unfoldable pub logging_unary_server_interceptor :
      C → Q → Text → Handler W C Q E A → State W → Result E A × State W
  logging_unary_server_interceptor ctx req method handler s =
      let addr = address_or_unknown (grpc.peer_of ctx) in
      let answer = handler ctx req s.world in
      (
        answer.0,
        record {
          lines =
              finished addr method (grpc.code_of answer.0) (grpc.now answer.1 - grpc.now s.world)
              ∷ started addr method
              ∷ s.lines;
          world = answer.1;
        },
      )

  -- The interceptor answers what the handler answers, and calls it once with the context and the
  -- request as they came.
  pub interceptor_transparent :
      (ctx : C) (req : Q) (method : Text) (handler : Handler W C Q E A) (s : State W)
      → let r = logging_unary_server_interceptor ctx req method handler s in
        (r.0, r.1.world) ≡ handler ctx req s.world
  unfolding logging_unary_server_interceptor
  interceptor_transparent ctx req method handler s = refl
