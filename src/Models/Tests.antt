-- ===== src/Models/Tests.antt =====
-- Two handoffs that agree on their dedup key (models.py).
use basecradle_router.Base.{String, ◌≡◌, refl, none}
use basecradle_router.Models.{EventKind, Event, dedup_key}
use basecradle_router.Models.Keys.{NoColon, dedup_key_injective}

abbrev handoff : String → Event
handoff arg = record {
  source = "gh";
  kind = EventKind.handoff;
  recipient = record { by = "bot_slug"; value = "nova" };
  wake_arg = arg;
  delivery_id = "a:b";
  origin = none;
  occurred_at = none;
  event_type = none;
}

gh_NoColon : NoColon "gh"
gh_NoColon = (cc, (cc, tt))

nova_NoColon : NoColon "nova"
nova_NoColon = (cc, (cc, (cc, (cc, tt))))

dedup_key_injective_example :
    ((handoff "one").source ≡ "gh")
    × ((handoff "one").recipient.value ≡ "nova")
    × ((handoff "one").delivery_id ≡ "a:b")
unfolding dedup_key
dedup_key_injective_example =
    dedup_key_injective (handoff "one") (handoff "two") gh_NoColon gh_NoColon nova_NoColon
      nova_NoColon refl
