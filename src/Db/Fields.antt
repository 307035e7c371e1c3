-- ===== src/Db/Fields.antt =====
-- db/itable.h: what is read of the rows that a SELECT of one column gives. SQLite is not modelled: a
-- row is its value, or `none` for NULL, and a statement is the rows that are still to come.
pub mod Single
use iexapitest.Base.{
  List, Option, Result, Text, [], codes, err, logic_error, none, ok, out_of_range, some, ◌++◌, ◌∷◌,
}

module _ {A : Type 0} where
  -- `executeStep`: the present row, and the rows behind it; `none` when there is no further one
  execute_step : List (Option A) → Option (Option A × List (Option A))
  execute_step [] = none
  execute_step (row ∷ rows) = some (row, rows)

  -- The second `executeStep`
  checked_single : Text → Text → A → Option (Option A × List (Option A)) → Result A
  checked_single filter_field_name value result none = ok result
  checked_single filter_field_name value result (some step) = err (
      logic_error (
        codes "There are more than one results for field="
        ++ (filter_field_name ++ (codes " and value=" ++ value))))

  -- The first step and the test for NULL
  single_value : Text → Text → Option (Option A × List (Option A)) → Result A
  unfolding execute_step checked_single
  single_value filter_field_name value none = err (logic_error (codes "There is no one results"))
  single_value filter_field_name value (some (none, rows)) =
      err (out_of_range (codes "Asked results is NULL"))
  single_value filter_field_name value (some (some result, rows)) =
      checked_single filter_field_name value result (execute_step rows)

  -- `GetFieldValue`, the name and the printed value of the condition given for its message
  unfoldable pub get_field_value : Text → Text → List (Option A) → Result A
  unfolding single_value execute_step
  get_field_value filter_field_name value rows =
      single_value filter_field_name value (execute_step rows)

  -- `GetFieldValueList`. What SQLite gives for a NULL is `null_value`.
  unfoldable pub get_field_value_list : A → List (Option A) → List A
  get_field_value_list null_value [] = []
  get_field_value_list null_value (none ∷ rows) = null_value ∷ get_field_value_list null_value rows
  get_field_value_list null_value (some value ∷ rows) = value ∷ get_field_value_list null_value rows
