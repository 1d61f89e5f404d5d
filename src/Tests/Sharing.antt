-- ===== src/Tests/Sharing.antt =====
-- The shared databases of vfs/memdb, the tokens of internal/cabi and the quotes of internal/sqlid on
-- small inputs.
use sqlite.Prelude.{ℕ, ◌≡◌, refl, true, false, List, [], ◌∷◌, some, none, arith, inl}
use sqlite.Pages.{put_page, get_page}
use sqlite.Memdb.{
  Db, Fs, ok, x_read, x_write, acquire_db, release_db, is_shared, shared_key, trim_prefix,
  trim_slashes, has_prefix, drop_prefix, same_name, new_db,
}
use sqlite.Memdb.Sharing.{x_write-x_read}
use sqlite.Sqlid.{
  quote_ident, quote_string, quote_ident_backtick, unquote, valid_ident, ident_rest, named_arg,
  cut_eq, double, split_last,
}
use sqlite.Sqlid.Quoting.{unquote-quote}
use sqlite.StmtCache.{normalize}
use sqlite.Registry.{Registry, new_registry, register}

-- "/a" and "file://a"
abbrev slash_a : List ℕ
slash_a = b'/' ∷ b'a' ∷ []

abbrev file_a : List ℕ
file_a = b'f' ∷ b'i' ∷ b'l' ∷ b'e' ∷ b':' ∷ b'/' ∷ b'/' ∷ b'a' ∷ []

abbrev no_dbs : Fs
no_dbs = record { mem_dbs = λ _. none; dbs = λ _. new_db []; next = 0 }

names_test :
    (is_shared slash_a ≡ true)
    × (is_shared file_a ≡ true)
    × (shared_key file_a ≡ shared_key slash_a)
    × (is_shared (b'a' ∷ []) ≡ false)
unfolding shared_key trim_prefix trim_slashes has_prefix drop_prefix
names_test = (refl, refl, refl, refl)

-- The database goes when its last handle does.
release_test :
    let f = (acquire_db no_dbs slash_a).0 in
    (f.mem_dbs (b'a' ∷ []) ≡ some 0) × ((release_db f 0 true).mem_dbs (b'a' ∷ []) ≡ none)
unfolding acquire_db release_db shared_key trim_prefix trim_slashes has_prefix drop_prefix same_name
release_test = (refl, refl)

abbrev one_page : Db
one_page = record (new_db []) { pages = (0, 1 ∷ 2 ∷ []) ∷ []; size = 2 }

x_write-x_read_example : x_read (x_write one_page false (5 ∷ 6 ∷ []) 2).0 2 2 ≡ (5 ∷ 6 ∷ [], ok)
unfolding put_page get_page
x_write-x_read_example =
    x_write-x_read one_page (5 ∷ 6 ∷ []) 2 (refl, tt)
      ((λ _. inl (omega arith)), ((λ ne. absurd (ne refl)), tt)) (omega arith)

-- a"b
abbrev quoted_text : List ℕ
quoted_text = b'a' ∷ b'"' ∷ b'b' ∷ []

quote_test :
    (quote_ident quoted_text ≡ b'"' ∷ b'a' ∷ b'"' ∷ b'"' ∷ b'b' ∷ b'"' ∷ [])
    × (unquote (b'[' ∷ b'a' ∷ b']' ∷ []) ≡ b'a' ∷ [])
    × (valid_ident (b'a' ∷ b'1' ∷ []) ≡ true)
    × (valid_ident (b'1' ∷ b'a' ∷ []) ≡ false)
    × (named_arg (b'k' ∷ b'=' ∷ b' ' ∷ b'v' ∷ []) ≡ (b'k' ∷ [], b'v' ∷ []))
    × (named_arg (b'v' ∷ []) ≡ ([], b'v' ∷ []))
unfolding quote_ident double unquote split_last valid_ident ident_rest named_arg cut_eq normalize
quote_test = (refl, refl, refl, refl, refl, refl)

unquote-quote_example :
    (unquote (quote_ident quoted_text) ≡ quoted_text)
    × (unquote (quote_string quoted_text) ≡ quoted_text)
    × (unquote (quote_ident_backtick quoted_text) ≡ quoted_text)
unquote-quote_example = unquote-quote quoted_text

abbrev one_token : Registry ℕ
one_token = (register new_registry 7).0
