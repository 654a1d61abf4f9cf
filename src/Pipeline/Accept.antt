-- ===== src/Pipeline/Accept.antt =====
-- pipeline.py: the fast half, `accept`, from the route to the resolved agent, and `handle`. What the
-- registry, the route and the configuration answer to a request is the record `Routes`.
use basecradle_router.Base.{ℕ, String, Bool, true, false, Option, none, some, if◌then◌else◌}
use basecradle_router.Models.{Agent, Event}
use basecradle_router.Pipeline.{
  route, verify, normalize, resolve, ok_outcome, ignored, rejected, failed, delivery_rejected,
  delivery_accepted, delivery_decision, Environment, World, note, prove, execute,
}

-- `verify` with the route's secret: it returns, or raises `SignatureError`, `ConfigError` or another.
pub data Verified : Type 0 where
  verified : Verified
  signature_error : String → Verified
  secret_error : String → Verified
  verify_raised : String → Verified

-- `normalize`: an event, `None`, a `PayloadError` or an `UntrustedSenderError`, or another error.
pub data Normalized : Type 0 where
  normalized : Event → Normalized
  not_actionable : Normalized
  payload_error : String → Normalized
  normalize_raised : String → Normalized

-- `resolve_agent`: an agent, a `ConfigError`, or another error.
pub data Resolved : Type 0 where
  resolved : Agent → Resolved
  unresolved : String → Resolved
  resolve_raised : String → Resolved

pub record Routes (Q : Type 0) : Type 0 where
  pub is_known : String → Bool
  pub verify_request : String → Q → Verified
  pub normalize_request : String → Q → Normalized
  pub resolve_agent : Event → Resolved

-- `PipelineResult`, its records among the world's.
pub record Trip (E : Type 0) : Type 0 where
  pub world : World E
  pub event : Option Event
  pub agent : Option Agent

-- How `_accept` ends: it returns, or raises.
pub data Intake (E : Type 0) : Type 0 where
  settled : Option (Agent × Event) → Trip E → Intake E
  crashed : String → Trip E → Intake E

module _ {E : Type 0} where
  unfoldable pub after_resolve : Event → Trip E → Resolved → Intake E
  unfolding note
  after_resolve e t (resolved a) =
      settled (some (a, e)) (record t { world = note resolve ok_outcome t.world; agent = some a })
  after_resolve e t (unresolved m) = settled none (record t { world = note resolve failed t.world })
  after_resolve e t (resolve_raised m) = crashed m t

  -- `accept` around `_accept`: the result, and what is pending.
  unfoldable pub settle_accept : Intake E → Trip E × Option (Agent × Event)
  unfolding note
  settle_accept (settled pending t) = (t, pending)
  settle_accept (crashed m t) = (record t { world = note route failed t.world }, none)

module _ {E Q : Type 0} (routes : Routes Q) (source : String) (request : Q) where
  unfoldable pub after_normalize : Trip E → Normalized → Intake E
  unfolding note prove after_resolve
  after_normalize t (payload_error m) =
      settled none (record t { world = note normalize rejected t.world })
  after_normalize t not_actionable =
      settled none (record t {
        world = note normalize ignored (prove (delivery_decision source false) t.world);
      })
  after_normalize t (normalize_raised m) = crashed m t
  after_normalize t (normalized e) =
      after_resolve e
        (record t {
          world = note normalize ok_outcome (prove (delivery_decision source true) t.world);
          event = some e;
        })
        (routes.resolve_agent e)

  unfoldable pub after_verify : Trip E → Verified → Intake E
  unfolding note prove after_normalize
  after_verify t (signature_error m) =
      settled none
        (record t { world = note verify rejected (prove (delivery_rejected source m) t.world) })
  after_verify t (secret_error m) =
      settled none
        (record t { world = note verify failed (prove (delivery_rejected source m) t.world) })
  after_verify t (verify_raised m) = crashed m t
  after_verify t verified =
      after_normalize
        (record t { world = note verify ok_outcome (prove (delivery_accepted source) t.world) })
        (routes.normalize_request source request)

  -- `_accept`
  unfoldable pub accept_stages : Trip E → Intake E
  unfolding note after_verify
  accept_stages t =
      if routes.is_known source
      then after_verify (record t { world = note route ok_outcome t.world })
          (routes.verify_request source request)
      else settled none (record t { world = note route rejected t.world })

  unfoldable pub accept : World E → Trip E × Option (Agent × Event)
  unfolding accept_stages settle_accept
  accept w = settle_accept (accept_stages (record { world = w; event = none; agent = none }))

  unfoldable pub handle_pending : Environment E → ℕ → Trip E → Option (Agent × Event) → Trip E
  unfolding execute
  handle_pending env wake_attempts t none = t
  handle_pending env wake_attempts t (some (a, e)) = record t {
    world = execute env wake_attempts a e t.world;
  }

  unfoldable pub handle : Environment E → ℕ → World E → Trip E
  unfolding accept handle_pending
  handle env wake_attempts w =
      let (t, pending) = accept w in handle_pending env wake_attempts t pending
