-- ===== src/Tickets/SyncTests.antt =====
-- A ticket whose assessment failed, and the theorems on its synchronisation at it.
use xoc_api_aws.Base.{◌≡◌, refl, true, false, some, List, [], ◌∷◌}
use xoc_api_aws.Base.Decimal.{show_nat}
use xoc_api_aws.Base.Value.{text, num}
use xoc_api_aws.Tickets.Item.{Ticket, blank_ticket, with_index_fields, tenant_pk, ticket_sk}
use xoc_api_aws.Tickets.Table.{World, update_if}
use xoc_api_aws.Tickets.Sample.{Rows, rows_table, get_row, put_row}
use xoc_api_aws.Tickets.Indexed.{IsIndexed, WellIndexed, put-WellIndexed}
use xoc_api_aws.Tickets.Indexed.Synced.{synced-WellIndexed}
use xoc_api_aws.Tickets.Automation.{
  assessment_guard, message_of, sync_unresolvable_assessment, record_automation_started, Op, assess,
  start, run,
}
use xoc_api_aws.Tickets.Assessment.{IsUntouched, sync_once}

abbrev new_ticket : Ticket
new_ticket =
    with_index_fields 1 "t7" "PENDING" "2026-01-01"
      (blank_ticket "2026-01-01" "t7" 1 (num 42) (text "Disk") (text "Full") "PENDING")

abbrev world : World Rows
world = record { table = put_row [] new_ticket; resumed = []; events = []; pushes = [] }

synced :
    (sync_unresolvable_assessment rows_table 1 "t7" "VICTOR_TIMEOUT" "2026-01-02" world).0 ≡ true
unfolding sync_unresolvable_assessment message_of update_if get_row put_row with_index_fields
    tenant_pk show_nat ticket_sk assessment_guard
synced = refl

-- A late start, and another assessment.
abbrev between : List Op
between = start 1 "t7" "arn:1" "2026-01-02" ∷ assess 1 "t7" "NO_EXECUTABLE_PLAN" "2026-01-02" ∷ []

sync_once_example :
    ((t : Ticket) × (rows_table.get_item world.table (tenant_pk 1) (ticket_sk "t7") ≡ some t)
      × IsUntouched t)
    × ((sync_unresolvable_assessment rows_table 1 "t7" "CANNOT_RESOLVE" "2026-01-03" (
          run rows_table
            (sync_unresolvable_assessment rows_table 1 "t7" "VICTOR_TIMEOUT" "2026-01-02" world).1
            between)).0
        ≡ false)
sync_once_example =
    sync_once rows_table 1 "t7" "VICTOR_TIMEOUT" "CANNOT_RESOLVE" "2026-01-02" "2026-01-03" between
      world synced

empty-WellIndexed : WellIndexed rows_table []
unfolding get_row
empty-WellIndexed = record { each = λ p k t h. cc }

new_ticket-IsIndexed : IsIndexed new_ticket.pk new_ticket.sk new_ticket
unfolding with_index_fields
new_ticket-IsIndexed = record {
  at_pk = refl;
  at_sk = refl;
  state = "PENDING";
  has_state = refl;
  listed = refl;
  looked_up = refl;
}

synced-WellIndexed_example :
    WellIndexed rows_table
      (sync_unresolvable_assessment rows_table 1 "t7" "VICTOR_TIMEOUT" "2026-01-02" world).1.table
    × WellIndexed rows_table
        (record_automation_started rows_table 1 "t7" "arn:1" "2026-01-02" world.table)
synced-WellIndexed_example =
    synced-WellIndexed rows_table 1 "t7" "VICTOR_TIMEOUT" "arn:1" "2026-01-02" world
      (put-WellIndexed rows_table [] new_ticket empty-WellIndexed new_ticket-IsIndexed)
