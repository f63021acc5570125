-- ===== src/Storage/DeadLetters.antt =====
-- tako_vm/storage.py: the table dead_letter_queue.
use tako_vm.Prelude.{
  ℕ, suc, ◌+◌, String, Option, none, some, Bool, true, List, [], ◌∷◌, ◌++◌, leb, ltb, take, drop,
  length, if◌then◌else◌, str_eq, ◌==◌, is_some,
}

-- A row; the payload is the canonical text of its JSON.
pub record DlqEntry : Type 0 where
  pub id : ℕ
  pub job_id : String
  pub job_data : String
  pub error_type : String
  pub error_message : Option String
  pub retry_count : ℕ
  pub created_at : ℕ
  pub client_ip : Option String
  pub correlation_id : Option String

-- The rows with the next value of the sequence.
pub record DlqTable : Type 0 where
  pub next_id : ℕ
  pub rows : List DlqEntry

unfoldable pub add_to_dlq : DlqTable → DlqEntry → ℕ × DlqTable
add_to_dlq t e = (
  t.next_id,
  record { next_id = suc t.next_id; rows = t.rows ++ (record e { id = t.next_id }) ∷ [] },
)

unfoldable pub find_entry : ℕ → List DlqEntry → Option DlqEntry
find_entry id [] = none
find_entry id (e ∷ es) = if e.id == id then some e else find_entry id es

unfoldable pub get_dlq_entry : DlqTable → ℕ → Option DlqEntry
unfolding find_entry
get_dlq_entry t id = find_entry id t.rows

unfoldable pub without_entry : ℕ → List DlqEntry → List DlqEntry
without_entry id [] = []
without_entry id (e ∷ es) = let rest = without_entry id es in if e.id == id then rest else e ∷ rest

unfoldable pub remove_from_dlq : DlqTable → ℕ → Bool × DlqTable
unfolding find_entry without_entry
remove_from_dlq t id = (is_some (find_entry id t.rows), record t { rows = without_entry id t.rows })

-- `error_type` filters if it is not empty; the order is `created_at DESC`.
unfoldable pub insert_entry : DlqEntry → List DlqEntry → List DlqEntry
insert_entry e [] = e ∷ []
insert_entry e (x ∷ xs) =
    let rest = insert_entry e xs in if leb x.created_at e.created_at then e ∷ x ∷ xs else x ∷ rest

abbrev has_type : String → DlqEntry → Bool
has_type type e = if str_eq type "" then true else str_eq e.error_type type

unfoldable pub of_type : String → List DlqEntry → List DlqEntry
unfolding insert_entry
of_type type [] = []
of_type type (e ∷ es) =
    let rest = of_type type es in if has_type type e then insert_entry e rest else rest

unfoldable pub list_dlq_entries : DlqTable → String → (limit offset : ℕ) → List DlqEntry
unfolding of_type
list_dlq_entries t type limit offset = take limit (drop offset (of_type type t.rows))

-- The rows that DELETE … WHERE created_at < cutoff leaves, and how many it takes.
unfoldable pub from_cutoff : ℕ → List DlqEntry → List DlqEntry
from_cutoff cutoff [] = []
from_cutoff cutoff (e ∷ es) =
    let rest = from_cutoff cutoff es in if ltb e.created_at cutoff then rest else e ∷ rest

unfoldable pub count_before : ℕ → List DlqEntry → ℕ
count_before cutoff [] = 0
count_before cutoff (e ∷ es) = (if ltb e.created_at cutoff then 1 else 0) + count_before cutoff es

unfoldable pub cleanup_old_dlq_entries : ℕ → DlqTable → ℕ × DlqTable
unfolding from_cutoff count_before
cleanup_old_dlq_entries cutoff t =
    (count_before cutoff t.rows, record t { rows = from_cutoff cutoff t.rows })

-- get_dlq_stats: the rows, and the rows of each error type.
unfoldable pub count_type : String → List DlqEntry → ℕ
count_type type [] = 0
count_type type (e ∷ es) = (if str_eq e.error_type type then 1 else 0) + count_type type es

unfoldable pub get_dlq_stats : DlqTable → ℕ × (String → ℕ)
unfolding count_type
get_dlq_stats t = (length t.rows, λ type. count_type type t.rows)
