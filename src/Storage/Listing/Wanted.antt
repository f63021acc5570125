-- ===== src/Storage/Listing/Wanted.antt =====
-- tako_vm/storage.py: the rows that the filters of list_records select.
use tako_vm.Prelude.{
  String, Option, none, some, Bool, true, false, ◌&&◌, ◌||◌, List, [], ◌∷◌, ◌≡◌, refl, str_eq,
  if◌then◌else◌,
}
use tako_vm.Storage.Columns.{Column, Value, Row}
use tako_vm.Storage.Records.{Table, holds}
use tako_vm.Storage.Listing.{status_text, matching_rows, is_of_status, passes}

-- Whether a row has the wanted status, and the wanted job type; none and the empty text want any.
abbrev has_status : Option String → Option Value → Bool
has_status none cell = true
has_status (some wanted) (some (Value.status s)) = str_eq wanted "" || str_eq (status_text s) wanted
has_status (some wanted) _ = str_eq wanted ""

abbrev has_type : Option String → Option Value → Bool
has_type none cell = true
has_type (some wanted) (some (Value.text name)) = str_eq wanted "" || str_eq name wanted
has_type (some wanted) _ = str_eq wanted ""

-- The rows of a table with the wanted status and job type.
unfoldable pub wanted_rows : (status job_type : Option String) → Table → List Row
wanted_rows status job_type [] = []
wanted_rows status job_type ((id, r) ∷ t) =
    let rest = wanted_rows status job_type t in
    if has_status status (r Column.status) && has_type job_type (r Column.job_type)
    then r ∷ rest
    else rest

if_then_true : (b : Bool) → (if b then true else false) ≡ b
if_then_true true = refl
if_then_true false = refl

if_then_or : (b c : Bool) → (if b then true else c) ≡ (b || c)
if_then_or true c = refl
if_then_or false c = refl

passes-is_of_status :
    (o : Option String) (cell : Option Value) → passes is_of_status o cell ≡ has_status o cell
passes-is_of_status none cell = refl
passes-is_of_status (some w) none = if_then_true (str_eq w "")
passes-is_of_status (some w) (some (Value.status s)) =
    if_then_or (str_eq w "") (str_eq (status_text s) w)
passes-is_of_status (some w) (some _) = if_then_true (str_eq w "")

passes-holds : (o : Option String) (cell : Option Value) → passes holds o cell ≡ has_type o cell
passes-holds none cell = refl
passes-holds (some w) none = if_then_true (str_eq w "")
passes-holds (some w) (some (Value.text s)) = if_then_or (str_eq w "") (str_eq s w)
passes-holds (some w) (some _) = if_then_true (str_eq w "")

pub matching_rows-wanted :
    (status job_type : Option String) (t : Table)
    → matching_rows status job_type t ≡ wanted_rows status job_type t
unfolding matching_rows wanted_rows
matching_rows-wanted status job_type [] = refl
matching_rows-wanted status job_type ((id, r) ∷ t) =
    rw
      (
        matching_rows-wanted status job_type t,
        passes-is_of_status status (r Column.status),
        passes-holds job_type (r Column.job_type),
      )
      refl
