-- ===== src/Config/Started.antt =====
-- What a start leaves, when it succeeds and when it fails.
use aetus.Base.{◌≡◌, ◌≢◌, refl, ap, ◌∙◌, none, some, arith}
use aetus.Types.{Config}
use aetus.Esp.{esp_ok, invalid_state, ok}
use aetus.Rtos.{RtosQueue}
use aetus.Config.{Ctx, Boot, or_default, start, start_checks, start_services, fresh_ctx}
use aetus.Config.Accepted.{IsAcceptable, start_checks-update_checks, update_checks_iff}

module _ (rtos : RtosQueue) where
  -- The services do not touch the queue, the sequence number or the configuration.
  services-keep :
      (boot : Boot) (ctx : Ctx rtos)
      → ((start_services rtos boot ctx).1.queue ≡ ctx.queue)
        × ((start_services rtos boot ctx).1.sequence ≡ ctx.sequence)
        × ((start_services rtos boot ctx).1.config ≡ ctx.config)
  services-keep boot ctx = ground arith

  checks_pass : (config : Config) → IsAcceptable config → start_checks config ≡ ok tt
  checks_pass config a = start_checks-update_checks config ∙ (update_checks_iff config).1 a

  refused :
      (config : Config) (boot : Boot) (ctx : Ctx rtos) (q : rtos.Queue)
      → IsAcceptable config
      → ctx.queue ≡ some q
      → start rtos (some config) boot ctx ≡ (invalid_state, ctx)
  unfolding start
  refused config boot ctx q a e = rw (checks_pass config a, e) refl

  created :
      (config : Config) (boot : Boot) (ctx : Ctx rtos) (q : rtos.Queue)
      → IsAcceptable config
      → ctx.queue ≡ none
      → rtos.create (or_default config.queue_depth 16) ≡ some q
      → start rtos (some config) boot ctx
        ≡ start_services rtos boot (record (fresh_ctx rtos config boot.random) { queue = some q })
  unfolding start
  created config boot ctx q a e made = rw (checks_pass config a, e, made) refl

-- A start that creates the queue and then fails is final: every later start with an acceptable
-- configuration is refused as if the component ran.
pub start-stuck :
    (rtos : RtosQueue) (config again : Config) (boot later : Boot) (ctx : Ctx rtos) (q : rtos.Queue)
    → IsAcceptable config
    → IsAcceptable again
    → ctx.queue ≡ none
    → rtos.create (or_default config.queue_depth 16) ≡ some q
    → (start rtos (some config) boot ctx).0 ≢ esp_ok
    → start rtos (some again) later (start rtos (some config) boot ctx).1
      ≡ (invalid_state, (start rtos (some config) boot ctx).1)
start-stuck rtos config again boot later ctx q a b e made fails =
    let here = created rtos config boot ctx q a e made in
    refused rtos again later (start rtos (some config) boot ctx).1 q b (
      ap (λ r. r.1.queue) here
      ∙ (services-keep rtos boot (record (fresh_ctx rtos config boot.random) { queue = some q })).0)
