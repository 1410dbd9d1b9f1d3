-- ===== src/Adapters/Database/Books/Tests.antt =====
-- The storage of library/adapters/database/storages/book.py on a table in memory.
use example_litestar_service.Prelude.{
  List, ◌≡◌, ◌≢◌, refl, true, none, some, [], ◌∷◌, pos, prefix, arith, All, ◌++◌,
}
use example_litestar_service.Domains.Entities.Book.{Book, BookId, CreateBook}
use example_litestar_service.Application.Exceptions.{entity_already_exists}
use example_litestar_service.Application.Result.{ok, raise}
use example_litestar_service.Adapters.Database.Books.{
  BookRow, fetch_book_by_id, count_books, create_book, save_bulk_books, values_of,
}
use example_litestar_service.Adapters.Database.Books.Engine.{live_keys}
use example_litestar_service.Adapters.Database.Books.Memory.{Rows, memory, memory-IsBookDatabase}
use example_litestar_service.Adapters.Database.Books.Reading.{
  read_pages, all_books, read_pages-all_books,
}
use example_litestar_service.Adapters.Database.Books.Writing.{create_book_new}
use example_litestar_service.Adapters.Database.Books.Bulk.{IsUnique, has_key, save_bulk_books_lem}

abbrev emma : BookRow
emma = record {
  id = "b1";
  title = "Emma";
  year = pos 1815;
  author = "Austen";
  created_at = 3;
  updated_at = 4;
  deleted_at = none;
}

-- The second book is deleted.
abbrev table : Rows
table = emma ∷ record emma { id = "b2"; title = "Persuasion"; deleted_at = some 5 } ∷ []

abbrev new_book : CreateBook
new_book = record { title = "Persuasion"; year = pos 1815; author = "Austen" }

abbrev old_book : CreateBook
old_book = record { title = "Emma"; year = pos 1815; author = "Austen" }

read_pages-all_books_example :
    read_pages memory (λ x. x) 9 memory-IsBookDatabase 2 1 0 table
    ≡ (ok (all_books memory (λ x. x) 9 memory-IsBookDatabase table), table)
unfolding count_books
read_pages-all_books_example =
    read_pages-all_books memory (λ x. x) 9 memory-IsBookDatabase 2 1 1
      (record { limit = 1; offset = 0 }) table refl (ground arith)

create_book_new_example :
    (created : Book) × ((create_book memory 9 new_book table).0 ≡ ok created)
    × (created.title ≡ prefix 255 "Persuasion")
    × (created.year ≡ pos 1815)
    × (created.author ≡ prefix 255 "Austen")
    × ((fetch_book_by_id memory 9 created.id (create_book memory 9 new_book table).1).0
        ≡ ok (some created))
    × ((fetch_book_by_id memory 9 created.id table).0 ≡ ok none)
    × ((other : BookId)
        → other ≢ created.id
        → (fetch_book_by_id memory 9 other (create_book memory 9 new_book table).1).0
          ≡ (fetch_book_by_id memory 9 other table).0)
    × ((again : CreateBook)
        → values_of again ≡ values_of new_book
        → (create_book memory 9 again (create_book memory 9 new_book table).1).0
          ≡ raise (entity_already_exists "Book already exists"))
create_book_new_example =
    create_book_new memory (λ x. x) 9 memory-IsBookDatabase new_book table refl refl

save_bulk_books_lem_example :
    let (r, x) = save_bulk_books memory 9 (new_book ∷ old_book ∷ []) table in
    (r ≡ ok tt)
    × ((added : List BookRow) × (x ≡ table ++ added))
    × IsUnique (live_keys x)
    × All (λ b. has_key (values_of b) (live_keys x) ≡ true) (new_book ∷ old_book ∷ [])
save_bulk_books_lem_example =
    save_bulk_books_lem memory (λ x. x) 9 memory-IsBookDatabase new_book (old_book ∷ []) table
      (refl, (refl, tt)) (refl, tt)
