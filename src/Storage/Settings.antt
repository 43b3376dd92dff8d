-- ===== src/Storage/Settings.antt =====
-- The settings of backend/app/storage/repository/runtime.py.
use Prim.Native.String.{compare as compare_text}
use llm_api_mind.Base.{
  ℕ, String, Option, some, List, [], ◌∷◌, find, ◌==◌, ◌≡◌, refl, ◌∙◌, inl, inr, Bool-cases,
  find-hit, find-miss, eq_refl, if◌then◌else◌,
}
use llm_api_mind.Base.Json.{Json, end, field}
use llm_api_mind.Base.Sorting.{sort_by}
use llm_api_mind.Storage.Models.{AppSetting, Database}

unfoldable pub get_app_setting : Database → String → Option AppSetting
get_app_setting db key = find (λ s. s.key == key) db.settings

unfoldable pub list_app_settings : Database → List AppSetting
list_app_settings db = sort_by (λ s t. compare_text s.key t.key) db.settings

-- `AppSetting(key=key, value_json={"value": value}, updated_at=now)`
abbrev pub setting_of : String → Json → ℕ → AppSetting
setting_of key value now = record {
  key = key;
  value_json = field "value" value end;
  updated_at = now;
}

-- the rows after the assignment: an existing row of the key is rewritten, or a new one is added
unfoldable pub put_setting : String → Json → ℕ → List AppSetting → List AppSetting
put_setting key value now [] = setting_of key value now ∷ []
put_setting key value now (s ∷ l) =
    let rest = put_setting key value now l in
    if s.key == key
    then record s { value_json = field "value" value end; updated_at = now } ∷ l
    else s ∷ rest

unfoldable pub upsert_app_setting :
    Database → (key : String) → (value : Json) → (now : ℕ) → Database
unfolding put_setting
upsert_app_setting db key value now = record db { settings = put_setting key value now db.settings }

find-put :
    (key : String) (value : Json) (now : ℕ) (l : List AppSetting)
    → (s : AppSetting) × (find (λ t. t.key == key) (put_setting key value now l) ≡ some s)
      × (s.value_json ≡ field "value" value end)
      × (s.updated_at ≡ now)
unfolding put_setting
find-put key value now [] =
    (setting_of key value now, find-hit (λ t. t.key == key) _ [] (eq_refl key), refl, refl)
find-put key value now (s ∷ l) = elim (Bool-cases (s.key == key)) [
  | inl e ↦
      let s' : AppSetting = record s { value_json = field "value" value end; updated_at = now } in
      (s', rw e (find-hit (λ t. t.key == key) s' l e), refl, refl)
  | inr e ↦
      let (t, there, is_value, is_now) = find-put key value now l in
      (
        t,
        rw e (find-miss (λ u. u.key == key) s (put_setting key value now l) e ∙ there),
        is_value,
        is_now,
      )
]

-- What a key was set to is read back.
pub get-upsert_setting :
    (db : Database) (key : String) (value : Json) (now : ℕ)
    → (s : AppSetting) × (get_app_setting (upsert_app_setting db key value now) key ≡ some s)
      × (s.value_json ≡ field "value" value end)
      × (s.updated_at ≡ now)
unfolding get_app_setting upsert_app_setting
get-upsert_setting db key value now = find-put key value now db.settings
