-- ===== src/Http/Events.antt =====
-- The event and the notification of a publication result: build_publication_result and
-- build_publication_error_notification of src/http/app.ts.
use driveparts_websockets.Prelude.{Option, none, some, String, ◌==◌, if◌then◌else◌}
use driveparts_websockets.Value.{Fields, string, integer, end, field}
use driveparts_websockets.Publication.{ResultInput, Status, active, error, SanitizedError}
use driveparts_websockets.Publication.Resolve.{Snapshot}
use driveparts_websockets.Notifications.{
  Source, driveparts, mercado_livre_brasil, shopee, google_merchant, listing_error, integration,
  Content, Notification, Notifications, present_text,
}
use driveparts_websockets.Notifications
use driveparts_websockets.Gateway.{PublicationResultEvent}

abbrev pub build_publication_result : ResultInput → Snapshot → PublicationResultEvent
build_publication_result input snapshot = record {
  idempotency_key = input.idempotency_key;
  event_id = input.event_id;
  delivery_id = input.delivery_id;
  store_id = snapshot.store_id;
  inventory_item_integration_id = snapshot.inventory_item_integration_id;
  integration_id = snapshot.integration_id;
  inventory_item_id = snapshot.inventory_item_id;
  channel = snapshot.channel;
  status = snapshot.status;
  execution_id = snapshot.execution_id;
  attempt = input.attempt;
  finished_at = input.finished_at;
  operation = present_text input.operation;
  external_listing_id = present_text input.external_listing_id;
  inventory_item_integration = snapshot;
}

unfoldable pub notification_source : String → Source
notification_source channel =
    if channel == "mercado_libre_brasil"
    then mercado_livre_brasil
    else if channel == "shopee"
    then shopee
    else if channel == "google_merchant"
    then google_merchant
    else driveparts

abbrev status_text : Status → String
status_text active = "active"
status_text error = "error"

abbrev message_of : Option SanitizedError → String
message_of none = "Não foi possível concluir a publicação do anúncio."
message_of (some e) = e.message

abbrev operation_field : Option String → Fields
operation_field none = end
operation_field (some s) = field "operation" (string s) end

unfoldable pub build_publication_error_notification : ResultInput → Snapshot → Content
unfolding notification_source
build_publication_error_notification input snapshot = record {
  store_id = snapshot.store_id;
  user_id = none;
  type = listing_error;
  severity = Notifications.error;
  source = notification_source snapshot.channel;
  entity = integration;
  title = "Falha ao publicar anúncio";
  message = message_of snapshot.error;
  idempotency_key = some input.idempotency_key;
  channel = some snapshot.channel;
  listing_id = none;
  integration_id = some snapshot.integration_id;
  inventory_item_id = some snapshot.inventory_item_id;
  external_listing_id = present_text input.external_listing_id;
  fields = some (
      field "schema_version" (integer 1) (
        field "publication_result_id" (string input.idempotency_key) (
          field "inventory_item_integration_id" (string snapshot.inventory_item_integration_id) (
            field "event_id" (string input.event_id) (
              field "delivery_id" (string input.delivery_id) (
                field "status" (string (status_text snapshot.status)) (
                  field "execution_id" (string snapshot.execution_id) (
                    field "attempt" (integer input.attempt) (
                      field "finished_at" (string input.finished_at)
                        (operation_field (present_text input.operation)))))))))));
}
