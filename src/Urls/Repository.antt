-- ===== src/Urls/Repository.antt =====
-- internal/infrastructure/postgres/url_repository.go, as operations on the table of URLs. The
-- constraints are those of deployments/migrations/000001_create_urls_table.up.sql. What the server
-- reports for a reason of its own is the argument `fault`.
pub mod Invariant
pub mod Reads
pub mod Tenancy
pub mod History
use usp_cloud_native.Prelude.{
  ℕ, zero, suc, ◌+◌, ◌-◌, Str, codes, str_eq, str_lt, is_empty, ltb, leb, ◌==◌, Bool, true, false,
  not, ◌&&◌, ◌||◌, if◌then◌else◌, Option, none, some, List, [], ◌∷◌, ◌++◌, length, get_elem?, take,
  any, where_rows, first, update_rows, count_rows, Result, ok, err,
}
use usp_cloud_native.Errors.{
  UrlErr, not_found, deleted, conflict, check_constraint, PgErr, no_rows, unique_violation,
  check_violation, translate_error,
}
use usp_cloud_native.Urls.Entity.{Status, Url, status_text}

abbrev pub Table : Type 0
Table = List Url

-- `char_length` of a valid UTF-8 text: its bytes that continue no character.
abbrev pub char_length : Str → ℕ
char_length [] = 0
char_length (c ∷ s) = (if leb 128 c && ltb c 192 then 0 else 1) + char_length s

-- The check constraints of the table, but the one on the status, which the type gives, and the
-- one on the click count, which is never negative here.
unfoldable pub row_ok : Url → Bool
row_ok u =
    leb 3 (char_length u.short_code)
    && (ltb 0 (char_length u.original_url) && leb (char_length u.original_url) 8192)

abbrev pub has_id : Str → Url → Bool
has_id id u = str_eq u.id id

abbrev pub has_code : Str → Url → Bool
has_code code u = str_eq u.short_code code

-- The primary key and the unique constraint.
abbrev pub collides : Url → Url → Bool
collides u v = str_eq v.id u.id || str_eq v.short_code u.short_code

insert_row : Table → Url → Result PgErr Table
unfolding row_ok
insert_row t u =
    if row_ok u
    then (if any (collides u) t then err unique_violation else ok (t ++ u ∷ []))
    else err check_violation

abbrev translate : {A : Type 0} → Result PgErr A → Result UrlErr A
translate (ok a) = ok a
translate (err e) = err (translate_error e)

-- A fault of the server comes before the statement has an effect.
abbrev pub attempt : {A : Type 0} → Option PgErr → Result UrlErr A → Result UrlErr A
attempt none r = r
attempt (some e) r = err (translate_error e)

unfoldable pub create : Option PgErr → Table → Url → Result UrlErr Table
unfolding insert_row translate_error
create fault t u = attempt fault (translate (insert_row t u))

abbrev pub is_live : Url → Bool
is_live u = elim u.deleted_at [ none ↦ true | some at ↦ false ]

-- `WHERE id = … AND workspace_id = … AND deleted_at IS NULL`
abbrev pub is_owned : Str → Str → Url → Bool
is_owned id workspace_id u = str_eq u.id id && (str_eq u.workspace_id workspace_id && is_live u)

-- `RowsAffected() == 0`
abbrev affected : ℕ → Table → Result UrlErr Table
affected zero t = err not_found
affected (suc n) t = ok t

-- The columns that `Update` sets; the trigger sets `updated_at`.
abbrev pub set_columns : Url → ℕ → Url → Url
set_columns u now v = record v {
  original_url = u.original_url;
  title = u.title;
  status = u.status;
  expires_at = u.expires_at;
  updated_at = now;
}

unfoldable pub update : Option PgErr → Table → Url → ℕ → Result UrlErr Table
unfolding row_ok translate_error
update fault t u now =
    let here = is_owned u.id u.workspace_id in
    let t' = update_rows here (set_columns u now) t in
    attempt fault (
      if any (λ v. here v && not (row_ok (set_columns u now v))) t
      then err check_constraint
      else affected (count_rows here t) t')

abbrev pub mark_deleted : ℕ → Url → Url
mark_deleted now v = record v { status = Status.deleted; deleted_at = some now; updated_at = now }

unfoldable pub soft_delete : Option PgErr → Table → Str → Str → ℕ → Result UrlErr Table
unfolding translate_error
soft_delete fault t id workspace_id now =
    let here = is_owned id workspace_id in
    attempt fault (affected (count_rows here t) (update_rows here (mark_deleted now) t))

abbrev pub is_counted : Str → Url → Bool
is_counted code u = str_eq u.short_code code && is_live u

abbrev pub count_click : ℕ → Url → Url
count_click now v = record v { click_count = v.click_count + 1; updated_at = now }

-- The increment is the server's; it fails past the range of a bigint, which is a fault.
unfoldable pub increment_click_count : Option PgErr → Table → Str → ℕ → Result UrlErr Table
unfolding translate_error
increment_click_count fault t code now =
    attempt fault (ok (update_rows (is_counted code) (count_click now) t))

-- `scanURL`, and the check of `deleted_at` that follows it.
abbrev found : Option Url → Result UrlErr Url
found none = err (translate_error no_rows)
found (some u) = if is_live u then ok u else err deleted

unfoldable pub get_by_short_code : Option PgErr → Table → Str → Result UrlErr Url
unfolding translate_error
get_by_short_code fault t code = attempt fault (found (first (has_code code) t))

-- `WHERE id = … AND workspace_id = …`
abbrev pub is_row : Str → Str → Url → Bool
is_row id workspace_id u = str_eq u.id id && str_eq u.workspace_id workspace_id

unfoldable pub get_by_id : Option PgErr → Table → Str → Str → Result UrlErr Url
unfolding translate_error
get_by_id fault t id workspace_id = attempt fault (found (first (is_row id workspace_id) t))

pub record ListFilter : Type 0 where
  pub workspace_id : Str
  pub status : Option Str
  pub created_by : Option Str
  pub cursor : Str
  -- A limit that is not positive reads as 0.
  pub limit : ℕ

unfoldable pub clamp_limit : ℕ → ℕ
clamp_limit n = let limit = if n == 0 then 20 else n in if ltb 100 limit then 100 else limit

-- The filter's text, with "" for a nil pointer.
abbrev status_filter : Option Str → Str
status_filter none = []
status_filter (some s) = s

abbrev text_filter : Option Str → Str
text_filter none = []
text_filter (some s) = s

unfoldable pub selects : ListFilter → Url → Bool
unfolding status_text
selects f u =
    str_eq u.workspace_id f.workspace_id
    && (is_live u
        && ((is_empty f.cursor || str_lt f.cursor u.id)
            && ((is_empty (status_filter f.status)
                  || str_eq (status_text u.status) (status_filter f.status))
                && (is_empty (text_filter f.created_by)
                    || str_eq u.created_by (text_filter f.created_by)))))

-- `ORDER BY id ASC`, with ids compared by bytes.
insert_by_id : Url → Table → Table
insert_by_id u [] = u ∷ []
insert_by_id u (v ∷ t) = if str_lt v.id u.id then v ∷ insert_by_id u t else u ∷ v ∷ t

unfoldable pub order_by_id : Table → Table
unfolding insert_by_id
order_by_id [] = []
order_by_id (u ∷ t) = insert_by_id u (order_by_id t)

abbrev id_of : Option Url → Str
id_of none = []
id_of (some u) = u.id

-- `urls[limit-1].ID` and `urls[:limit]`, where a row more than `limit` came back.
abbrev page : ℕ → List Url → List Url × Str
page limit urls =
    if ltb limit (length urls)
    then (take limit urls, id_of (get_elem? urls (limit - 1)))
    else (urls, [])

unfoldable pub list_urls : Option PgErr → Table → ListFilter → Result UrlErr (List Url × Str)
unfolding selects order_by_id clamp_limit translate_error
list_urls fault t f =
    let limit = clamp_limit f.limit in
    attempt fault (ok (page limit (take (limit + 1) (order_by_id (where_rows (selects f) t)))))
