-- ===== src/Contacts/Service.antt =====
-- apps/api/services/contact_service.py, and the list members of apps/api/repositories/contact_repo.py. The import
-- of a CSV file and the listing are left out. An explicit null for a column that may not be null is not
-- modelled.
use calling_agent.Prelude.{
  ℕ, str_eq, ◌+◌, ◌-◌, ◌==◌, ltb, String, Bool, true, false, not, ◌&&◌, ◌||◌, Option, none, some,
  List, any, select, map_where, length, if◌then◌else◌,
}
use calling_agent.Http.{
  Error, http, integrity, Result, ok, Action, pure, raise, raise_if, query, gets, modify, zoom,
  ◌>>=◌, ◌>>◌,
}
use calling_agent.Repo.{Row, Values, in_tenant, get_by_id, insert, create, update, delete}
use calling_agent.Contacts.{Contact, Contacts, same_contact, get_by_phone}

pub record ContactList : Type 0 where
  pub name : String
  pub description : Option String
  pub contact_count : ℕ
  pub is_active : Bool

pub record ContactListMember : Type 0 where
  pub contact_list_id : ℕ
  pub contact_id : ℕ

pub record Db : Type 0 where
  pub contacts : Contacts
  pub lists : List (Row ContactList)
  pub members : List (Row ContactListMember)

abbrev pub no_index : Row ContactList → Row ContactList → Bool
no_index x y = false

abbrev pub is_pair : ℕ → ℕ → Row ContactListMember → Bool
is_pair list contact m = m.body.contact_list_id == list && m.body.contact_id == contact

-- The index `ix_list_member_unique`.
abbrev pub same_member : Row ContactListMember → Row ContactListMember → Bool
same_member x y = is_pair y.body.contact_list_id y.body.contact_id x

abbrev pub on_contacts : {A : Type 0} → Action Contacts A → Action Db A
on_contacts = zoom (λ db. db.contacts) (λ t db. record db { contacts = t })

abbrev pub on_lists : {A : Type 0} → Action (List (Row ContactList)) A → Action Db A
on_lists = zoom (λ db. db.lists) (λ t db. record db { lists = t })

abbrev pub on_members : {A : Type 0} → Action (List (Row ContactListMember)) A → Action Db A
on_members = zoom (λ db. db.members) (λ t db. record db { members = t })

-- The foreign keys of a member.
abbrev pub has_parents : ℕ → ℕ → Db → Bool
has_parents list contact db =
    any (λ l. l.id == list) db.lists && any (λ c. c.id == contact) db.contacts

abbrev pub recount : (ℕ → ℕ) → Row ContactList → Row ContactList
recount f l = record l { body = record l.body { contact_count = f l.body.contact_count } }

-- The flush of an assignment to a loaded list.
abbrev pub set_count : ℕ → (ℕ → ℕ) → Db → Db
set_count id f db = record db { lists = map_where (λ l. l.id == id) (recount f) db.lists }

-- The constraint `contact_status_check`.
abbrev pub has_status : Row Contact → Bool
has_status c =
    str_eq c.body.status "active"
    || str_eq c.body.status "inactive"
    || str_eq c.body.status "blocked"

-- What the flush of changed contacts checks.
abbrev pub are_sound : Contacts → Bool
are_sound cs =
    not (any (λ x. not (has_status x) || any (λ y. not (x.id == y.id) && same_contact x y) cs) cs)

abbrev pub not_found : Error
not_found = http 404 "Contact not found"

module _ (tenant : ℕ) where
  abbrev pub or_404 : Option (Row Contact) → Action Db (Row Contact)
  or_404 none = raise not_found
  or_404 (some c) = pure c

  unfoldable pub get_contact : ℕ → Action Db (Row Contact)
  unfolding get_by_id
  get_contact id = do c ← query (λ db. get_by_id (some tenant) id db.contacts); or_404 c

  abbrev pub unless_existing : Row Contact → Option (Row Contact) → Action Db (Row Contact)
  unless_existing new none = do
    _ ← raise_if (not (has_status new)) integrity
    on_contacts (create same_contact (some tenant) new)
  unless_existing new (some c) = raise (http 400 "Contact with phone number already exists")

  unfoldable pub create_contact : Row Contact → Action Db (Row Contact)
  unfolding get_by_phone create
  create_contact new = do
    existing ← query (λ db. get_by_phone tenant new.body.phone_number db.contacts)
    unless_existing new existing

  unfoldable pub update_contact : ℕ → Values Contact → Action Db (Row Contact)
  unfolding update
  update_contact id v = do
    c ← on_contacts (update (some tenant) id v)
    sound ← gets (λ db. are_sound db.contacts)
    _ ← raise_if (not sound) integrity
    or_404 c

  -- The database deletes the members of a deleted contact; the counts of their lists stay.
  abbrev pub cascade : ℕ → Db → Db
  cascade id db = record db { members = select (λ m. not (m.body.contact_id == id)) db.members }

  unfoldable pub delete_contact : ℕ → Action Db Bool
  unfolding delete
  delete_contact id = do
    deleted ← on_contacts (delete (some tenant) id)
    _ ← raise_if (not deleted) not_found
    _ ← modify (cascade id)
    pure true

  unfoldable pub create_list : Row ContactList → Action Db (Row ContactList)
  unfolding create
  create_list new = on_lists (create no_index (some tenant) new)

  abbrev pub find_list : ℕ → Db → Result (Option (Row ContactList))
  find_list id db = get_by_id (some tenant) id db.lists

  abbrev pub count_up :
      Row ContactListMember → Option (Row ContactList) → Action Db (Row ContactListMember)
  count_up m none = pure m
  count_up m (some l) = modify (set_count l.id (λ n. n + 1)) >> pure m

  abbrev pub new_member : ℕ → ℕ → ℕ → Row ContactListMember
  new_member id list contact = record {
    id = id;
    tenant_id = tenant;
    body = record { contact_list_id = list; contact_id = contact };
  }

  -- `add_contact_to_list`; `drawn` is the key of the member.
  unfoldable pub add_to_list : ℕ → ℕ → ℕ → Action Db (Row ContactListMember)
  unfolding get_by_id insert
  add_to_list drawn list contact = do
    parents ← gets (has_parents list contact)
    _ ← raise_if (not parents) integrity
    m ← on_members (insert same_member (new_member drawn list contact))
    l ← query (find_list list)
    count_up m l

  abbrev pub in_list : ℕ → ℕ → Row ContactListMember → Bool
  in_list list contact m = is_pair list contact m && in_tenant (some tenant) m

  abbrev pub count_down : Option (Row ContactList) → Action Db Bool
  count_down none = pure true
  count_down (some l) =
      if ltb 0 l.body.contact_count
      then (modify (set_count l.id (λ n. n - 1)) >> pure true)
      else pure true

  -- `res.rowcount`, and the rows that are left.
  abbrev pub take_out : ℕ → ℕ → Action Db ℕ
  take_out list contact db = (
    ok (length (select (in_list list contact) db.members)),
    record db { members = select (λ m. not (in_list list contact m)) db.members },
  )

  -- `remove_contact_from_list`
  unfoldable pub remove_from_list : ℕ → ℕ → Action Db Bool
  unfolding get_by_id
  remove_from_list list contact = do
    rowcount ← take_out list contact
    if ltb 0 rowcount then (query (find_list list) >>= count_down) else pure false
