-- ===== src/Domains/Entities/Book.antt =====
-- library/domains/entities/book.py and application/entities.py. A `UUID` is its canonical text,
-- a `datetime` an instant.
use Prim.Native.Nat.{ℕ}
use example_litestar_service.Prelude.{String, ℤ, List, [], ◌∷◌, ◌++◌}

abbrev pub BookId : Type 0
BookId = String

abbrev pub Datetime : Type 0
Datetime = ℕ

pub record Book : Type 0 where
  pub id : BookId
  pub title : String
  pub year : ℤ
  pub author : String
  pub created_at : Datetime
  pub updated_at : Datetime

-- Checked to be non-negative before they are built.
pub record BookPaginationParams : Type 0 where
  pub limit : ℕ
  pub offset : ℕ

pub record BookPagination : Type 0 where
  pub total : ℕ
  pub items : List Book

pub record CreateBook : Type 0 where
  pub title : String
  pub year : ℤ
  pub author : String

-- A field of a partial update: the sentinel `UNSET`, `None`, or a value.
pub data Given (A : Type 0) : Type 0 where
  unset : Given A
  null : Given A
  given : A → Given A

pub record UpdateBook : Type 0 where
  pub id : BookId
  pub title : Given String
  pub year : Given ℤ
  pub author : Given String

-- A value of the dictionary of an update: `None`, a text or an integer.
pub data Value : Type 0 where
  none_value : Value
  text : String → Value
  int : ℤ → Value

abbrev pub entry : {A : Type 0} → String → (A → Value) → Given A → List (String × Value)
entry name wrap unset = []
entry name wrap null = (name, none_value) ∷ []
entry name wrap (given a) = (name, wrap a) ∷ []

-- `UpdateBook.to_dict`
unfoldable pub book_to_dict : UpdateBook → List (String × Value)
book_to_dict u =
    entry "title" text u.title ++ (entry "year" int u.year ++ entry "author" text u.author)

pub record UploadBooks : Type 0 where
  pub queries : List String
