-- ===== src/Tests/HandlerCases.antt =====
-- Failed requests, and the conditions of filters.
use syncmaster.Handlers.Transformations.{
  Transformation, dataframe_rows_filter, dataframe_columns_filter, cast, sql,
}
use syncmaster.Session.{err}
use syncmaster.Errors.{raised, action_not_allowed}
use syncmaster.Tests.Sample.{bob, sample}
use syncmaster.Handlers.{
  make_rows_filter_expression, oracle_handler, postgres_handler, RowsFilter, equal, ilike,
  is_not_null,
}
use syncmaster.Prelude.{List, ◌≡◌, some, codes, ◌∷◌, refl, [], true, none}
use syncmaster.Responses.Statuses.{out_of_columns, among, status_of, create_queue-status}
use syncmaster.Queues.Api.{create_queue}
use syncmaster.Queues.{QueueData}

abbrev new_queue : QueueData
new_queue = record { name = "new"; group_id = 1; description = "" }

-- A developer may not create queues.
refused : create_queue bob new_queue sample ≡ (err (raised action_not_allowed), sample)
unfolding create_queue syncmaster.Queues.get_group_permission
    syncmaster.Access.get_group_permission_with syncmaster.Prelude.Tables.get
    syncmaster.Queues.queue_policy
refused = refl

create_queue-status_example :
    among (status_of (raised action_not_allowed)) (403 ∷ 404 ∷ 409 ∷ out_of_columns new_queue)
    ≡ true
create_queue-status_example =
    create_queue-status bob new_queue sample sample (raised action_not_allowed) refused

abbrev filters : List RowsFilter
filters =
    record { type = ilike; field = codes "name"; value = some (codes "%a%") }
    ∷ record { type = is_not_null; field = codes "id"; value = none }
    ∷ []

abbrev transformations : List Transformation
transformations =
    dataframe_rows_filter filters
    ∷ dataframe_columns_filter (cast (codes "id") (codes "int") ∷ [])
    ∷ sql (codes "SELECT id FROM source")
    ∷ []

expression :
    make_rows_filter_expression oracle_handler filters
    ≡ some (codes "LOWER(\"name\") LIKE LOWER('%a%') AND \"id\" IS NOT NULL")
unfolding make_rows_filter_expression syncmaster.Handlers.condition syncmaster.Handlers.quote_field
expression = refl

-- A quote in a value ends the literal: what follows is read as a condition.
abbrev injection : List RowsFilter
injection = record { type = equal; field = codes "id"; value = some (codes "1' OR 'a'='a") } ∷ []

escaped :
    make_rows_filter_expression postgres_handler injection ≡ some (codes "\"id\" = '1' OR 'a'='a'")
unfolding make_rows_filter_expression syncmaster.Handlers.condition syncmaster.Handlers.quote_field
escaped = refl
