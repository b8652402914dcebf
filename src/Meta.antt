-- ===== src/Meta.antt =====
-- utils/meta-defaults.ts: the metadata of sections, tables and seats is a JSON value that is
-- merged, deeply, over fixed defaults. A number is modelled as an integer; the order of the keys
-- of an object is the order of insertion and is never read.
pub mod Lookups
use Prim.Native.String
use omnixys_seat_service.Base.{
  ℕ, zero, suc, ◌+◌, String, Bool, true, false, Option, none, some, str_eq, if◌then◌else◌,
}
use omnixys_seat_service.Base.Int.{ℤ, pos, negsuc}
use omnixys_seat_service.Base.Text.{decimal, singleton}

mutual
  pub data Json : Type 0 where
    null : Json
    bool : Bool → Json
    num : ℤ → Json
    str : String → Json
    arr : Items → Json
    obj : Fields → Json

  pub data Items : Type 0 where
    nil : Items
    cons : Json → Items → Items

  pub data Fields : Type 0 where
    end : Fields
    field : String → Json → Fields → Fields

-- `result[key]`
unfoldable pub get : String → Fields → Option Json
get k end = none
get k (field j v fs) = if str_eq j k then some v else get k fs

-- `result[key] = value`, for a key other than `__proto__`
pub set : String → Json → Fields → Fields
set k v end = field k v end
set k v (field j w fs) = if str_eq j k then field j v fs else field j w (set k v fs)

item_entries : ℕ → Items → Fields
item_entries i nil = end
item_entries i (cons x xs) = field (decimal i) x (item_entries (i + 1) xs)

char_entries : ℕ → String → Fields
char_entries i String.[] = end
char_entries i (String.◌∷◌ c s) = field (decimal i) (str (singleton c)) (char_entries (i + 1) s)

-- The own properties that `{...value}` copies and `Object.keys(value)` lists.
pub own_entries : Json → Fields
unfolding item_entries char_entries
own_entries null = end
own_entries (bool b) = end
own_entries (num n) = end
own_entries (str s) = char_entries 0 s
own_entries (arr xs) = item_entries 0 xs
own_entries (obj fs) = fs

-- JavaScript's test of a value: `undefined` is read as `null`.
abbrev pub is_truthy : Json → Bool
is_truthy null = false
is_truthy (bool b) = b
is_truthy (num (pos zero)) = false
is_truthy (num n) = true
is_truthy (str String.[]) = false
is_truthy (str s) = true
is_truthy (arr xs) = true
is_truthy (obj fs) = true

-- `value ?? {}`, of a property that may be missing
abbrev pub or_empty : Option Json → Json
or_empty none = obj end
or_empty (some null) = obj end
or_empty (some v) = v

-- The loop over the keys of the override, and its body's two branches.
mutual
  pub merge_fields : Fields → Fields → Fields
  merge_fields result end = result
  merge_fields result (field k v fs) = merge_fields (set k (merge_value (get k result) v) result) fs

  pub merge_value : Option Json → Json → Json
  merge_value old null = null
  merge_value old (bool b) = bool b
  merge_value old (num n) = num n
  merge_value old (str s) = str s
  merge_value old (arr xs) = arr xs
  merge_value old (obj fs) = obj (merge_fields (own_entries (or_empty old)) fs)

-- The elements of an array may be objects, which are merged too.
merge_items : ℕ → Fields → Items → Fields
merge_items i result nil = result
merge_items i result (cons x xs) =
    merge_items (i + 1) (set (decimal i) (merge_value (get (decimal i) result) x) result) xs

pub deep_merge_meta : Json → Json → Json
unfolding merge_items
deep_merge_meta base null = base
deep_merge_meta base (bool false) = base
deep_merge_meta base (bool true) = obj (own_entries base)
deep_merge_meta base (num (pos zero)) = base
deep_merge_meta base (num n) = obj (own_entries base)
deep_merge_meta base (str String.[]) = base
deep_merge_meta base (str (String.◌∷◌ c s)) =
    obj (merge_fields (own_entries base) (char_entries 0 (String.◌∷◌ c s)))
deep_merge_meta base (arr xs) = obj (merge_items 0 (own_entries base) xs)
deep_merge_meta base (obj fs) = obj (merge_fields (own_entries base) fs)

abbrev pub default_meta : Json
default_meta = obj (
    field "color" (str "#6A4BBC") (
      field "visible" (bool true) (
        field "locked" (bool false) (
          field "spacing" (num (pos 50))
            (field "radius" (num (pos 120)) (field "shape" (str "circle") end))))))

-- prepareMeta
unfoldable pub prepare_meta : Json → Json
prepare_meta input = deep_merge_meta default_meta input
