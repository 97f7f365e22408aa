-- ===== src/Urls/Tests.antt =====
-- The laws of the entity, the table and the cache at concrete inputs.
use usp_cloud_native.Prelude.{codes, str_eq, none, [], ◌∷◌, ok, ◌≡◌, refl}
use usp_cloud_native.Urls.Entity.{Url}
use usp_cloud_native.Urls.Repository.{Table, create, update, soft_delete, mark_deleted, set_columns}
use usp_cloud_native.Urls.Repository.Invariant.{IsValid}
use usp_cloud_native.Urls.Repository.History.{insert, remove, history, history-IsValid}
use usp_cloud_native.Samples.{link, other_link, table}

abbrev third_link : Url
third_link = record link { id = codes "01C"; short_code = codes "new" }

create_run : create none table third_link ≡ ok (link ∷ other_link ∷ third_link ∷ [])
unfolding create str_eq
create_run = refl

delete_run :
    soft_delete none table (codes "01A") (codes "ws1") 25
    ≡ ok (mark_deleted 25 link ∷ other_link ∷ [])
unfolding soft_delete str_eq
delete_run = refl

abbrev new_columns : Url
new_columns = record link { original_url = codes "https://c.example"; title = codes "C" }

abbrev updated_table : Table
updated_table = set_columns new_columns 25 link ∷ other_link ∷ []

update_run : update none table new_columns 25 ≡ ok updated_table
unfolding update str_eq
update_run = refl

history-IsValid_example : IsValid (
    history [] (
      (none, insert link)
      ∷ (none, insert link)
      ∷ (none, remove (codes "01A") (codes "ws1") 25)
      ∷ []))
history-IsValid_example =
    history-IsValid (
      (none, insert link)
      ∷ (none, insert link)
      ∷ (none, remove (codes "01A") (codes "ws1") 25)
      ∷ [])
