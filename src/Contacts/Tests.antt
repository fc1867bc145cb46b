-- ===== src/Contacts/Tests.antt =====
-- Contact lists at concrete inputs: two lists of a tenant and one of another, with two contacts.
use calling_agent.Prelude.{◌≡◌, refl, arith, ℕ, String, true, false, none, List, [], ◌∷◌}
use calling_agent.Http.{get_db, http, integrity, err}
use calling_agent.Json.{end}
use calling_agent.Repo.{Row}
use calling_agent.Contacts.{Contact}
use calling_agent.Contacts.Service.{
  ContactList, Db, new_member, add_to_list, delete_contact, create_contact, update_contact,
}
use calling_agent.Contacts.Counts.{IsValid}
use calling_agent.Contacts.Changes.{Change, adds, removes, change_all, contact_counts_stay}

abbrev contact : ℕ → String → Row Contact
contact id phone = record {
  id = id;
  tenant_id = 2;
  body = record {
    phone_number = phone;
    email = none;
    first_name = none;
    last_name = none;
    company = none;
    timezone = none;
    tags = [];
    custom_fields = end;
    notes = none;
    status = "active";
    do_not_call = false;
    last_contacted_at = none;
    total_calls = 0;
  };
}

abbrev contact_list : ℕ → ℕ → ℕ → Row ContactList
contact_list id tenant count = record {
  id = id;
  tenant_id = tenant;
  body = record { name = "spring"; description = none; contact_count = count; is_active = true };
}

abbrev tables : Db
tables = record {
  contacts = contact 11 "+15550011" ∷ contact 12 "+15550012" ∷ [];
  lists = contact_list 5 2 1 ∷ contact_list 6 2 0 ∷ contact_list 7 3 0 ∷ [];
  members = new_member 2 100 5 11 ∷ [];
}

refuses_taken_number :
    (update_contact 2 12
      (record { tenant = none; columns = λ c. record c { phone_number = "+15550011" } })
      tables).0
    ≡ err integrity
unfolding update_contact
refuses_taken_number = refl

adds_a_contact :
    (change_all 2 (adds 101 5 12 ∷ []) tables).lists
    ≡ contact_list 5 2 2 ∷ contact_list 6 2 0 ∷ contact_list 7 3 0 ∷ []
unfolding change_all add_to_list get_db
adds_a_contact = refl

-- A contact is on a list once, and a list of another tenant takes it without counting.
refuses_twice : (add_to_list 2 101 5 11 tables).0 ≡ err integrity
unfolding add_to_list
refuses_twice = refl

counts_no_other_tenant : (add_to_list 2 101 7 11 tables).1.lists ≡ tables.lists
unfolding add_to_list
counts_no_other_tenant = refl

-- A deleted contact leaves its list's count behind.
keeps_count :
    let db = (delete_contact 2 11 tables).1 in (db.members ≡ []) × (db.lists ≡ tables.lists)
unfolding delete_contact
keeps_count = (refl, refl)

refuses_known_number :
    (create_contact 2 (contact 13 "+15550011") tables).0
    ≡ err (http 400 "Contact with phone number already exists")
unfolding create_contact
refuses_known_number = refl

tables-IsValid : IsValid 2 tables
tables-IsValid = (
  ((λ own. refl), ((λ own. refl), ((λ own. absurd (ground arith)), tt))),
  λ list contact. ground arith,
)

abbrev requests : List Change
requests = adds 101 5 12 ∷ adds 102 5 11 ∷ removes 5 11 ∷ removes 6 11 ∷ adds 103 6 11 ∷ []

contact_counts_stay_example : IsValid 2 (change_all 2 requests tables)
contact_counts_stay_example = contact_counts_stay 2 requests tables tables-IsValid
