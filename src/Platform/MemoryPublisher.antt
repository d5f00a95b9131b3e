-- ===== src/Platform/MemoryPublisher.antt =====
-- MemoryPublisher of internal/platform/memory.go: it keeps all events in their order.
use pulse_data.Prelude.{Option, none, List, ◌++◌}
use pulse_data.Events.{Event}
use pulse_data.Errors.{Error}

unfoldable pub publish_batch : List Event → List Event → Option Error × List Event
publish_batch batch events = (none, events ++ batch)
