-- ===== src/Contacts.antt =====
-- design/project/timeline.jsx: ContactsCard, the contacts of the products. Letters are put in lower case
-- by a parameter, and `Date.now()` in a new id is an argument.
pub mod Groups
mod Tests
use text.Mathlib.Text.{◌==◌ as str_eq}
use Prim.Native.String
use Prim.Native.String.{len}
use release_radar.Prelude.{
  Bool, true, false, not, ◌||◌, String, Option, none, some, List, [], ◌∷◌, ◌++◌, map, filter, find,
  includes, without, leb, if◌then◌else◌,
}
use release_radar.Prelude.Dict.{lookup, insert}
use release_radar.Prelude.Text.{◌◇◌, trim, is_empty}

pub record Contact : Type 0 where
  pub id : String
  pub product : String
  pub name : String
  pub email : String
  pub role : String
  pub snow : String
  pub notes : String

abbrev pub contacts_init : List Contact
contacts_init =
    record {
      id = "c-1";
      product = "operator";
      name = "Lukas Rüegg";
      email = "lukas.ruegg@solace-ops.example";
      role = "Solace Ops · primary";
      snow = "CHG / std-23";
      notes =
          "Always copy on oracle migrations. Reachable Mon–Fri 08:00–18:00 CET. Vacation backup: see Eva G.";
    }
    ∷ record {
      id = "c-2";
      product = "operator";
      name = "Anna Steiner";
      email = "anna.steiner@solace-ops.example";
      role = "Solace Ops · backup";
      snow = "CHG / std-23";
      notes = "";
    }
    ∷ record {
      id = "c-3";
      product = "concentrator";
      name = "Eva Gerber";
      email = "eva.gerber@customer-success.example";
      role = "Customer Success · primary";
      snow = "CHG required";
      notes =
          "Owns customer notification flow for TLS / breaking changes. Requires 1 week notice for prod.";
    }
    ∷ record {
      id = "c-4";
      product = "concentrator";
      name = "Tomáš Procházka";
      email = "tomas.prochazka@customer-success.example";
      role = "Customer Success · backup";
      snow = "CHG required";
      notes = "";
    }
    ∷ record {
      id = "c-5";
      product = "monalesy";
      name = "Mira Klein";
      email = "mira.klein@monalesy.example";
      role = "Tenant Owners lead";
      snow = "CHG (if prod)";
      notes =
          "Forwards prod-component changes to all tenant owners via mailing list monalesy-owners@…";
    }
    ∷ record {
      id = "c-6";
      product = "monalesy";
      name = "Ravi Nair";
      email = "ravi.nair@monalesy.example";
      role = "Tenant Owners deputy";
      snow = "CHG (if prod)";
      notes = "";
    }
    ∷ record {
      id = "c-7";
      product = "microservices";
      name = "Sina Wenger";
      email = "sina.wenger@platform-core.example";
      role = "Platform Core on-call";
      snow = "—";
      notes =
          "Use the on-call rota in OpsGenie before pinging directly. Acks within 15min during business hours.";
    }
    ∷ record {
      id = "c-8";
      product = "microservices";
      name = "Henning Hoffer";
      email = "henning.hoffer@platform-core.example";
      role = "Platform Core · backup";
      snow = "—";
      notes = "";
    }
    ∷ []

-- A contact that is being written.
pub record ContactDraft : Type 0 where
  pub product : String
  pub name : String
  pub email : String
  pub role : String
  pub snow : String
  pub notes : String

abbrev pub empty_draft : ContactDraft
empty_draft = record {
  product = "operator";
  name = "";
  email = "";
  role = "";
  snow = "—";
  notes = "";
}

pub record Card : Type 0 where
  pub contacts : List Contact
  pub selected_id : String
  pub query : String
  pub adding : Bool
  pub draft : ContactDraft
  pub open_groups : List String

abbrev pub new_card : Card
new_card = record {
  contacts = contacts_init;
  selected_id = "c-1";
  query = "";
  adding = false;
  draft = empty_draft;
  open_groups = [];
}

unfoldable pub toggle_group : String → Card → Card
toggle_group product c = record c {
  open_groups =
      if includes c.open_groups product
      then without c.open_groups product
      else c.open_groups ++ product ∷ [];
}

-- `s.includes(q)`
abbrev pub has_text : String → String → Bool
has_text s q = leb (String.find s q) (len s)

module _ (lower : String → String) where
  abbrev pub matches : String → Contact → Bool
  matches q c =
      has_text (lower c.name) q
      || (has_text (lower c.email) q || (has_text (lower c.role) q || has_text (lower c.product) q))

  unfoldable pub filtered : Card → List Contact
  filtered c =
      let q = lower (trim c.query) in
      if is_empty q then c.contacts else filter (matches q) c.contacts

  abbrev pub first_of : List Contact → Option Contact
  first_of [] = none
  first_of (x ∷ xs) = some x

  abbrev pub found_or : Option Contact → Option Contact → Option Contact
  found_or none other = other
  found_or (some x) other = some x

  -- The contact that is shown: the selected one, or the first of those listed.
  unfoldable pub selected : Card → Option Contact
  unfolding filtered
  selected c =
      found_or (find (λ (x : Contact). str_eq x.id c.selected_id) c.contacts)
        (first_of (filtered c))

  abbrev pub patch_at : Option Contact → (Contact → Contact) → List Contact → List Contact
  patch_at none f xs = xs
  patch_at (some s) f xs = map (λ (x : Contact). if str_eq x.id s.id then f x else x) xs

  -- A patch keeps the id. The inputs are there only if a contact is shown.
  unfoldable pub update_selected : (Contact → Contact) → Card → Card
  unfolding selected
  update_selected f c = record c { contacts = patch_at (selected c) f c.contacts }

  abbrev pub id_or : String → List Contact → String
  id_or id [] = id
  id_or id (x ∷ xs) = x.id

  abbrev pub remove_of : Option Contact → Card → Card
  remove_of none c = c
  remove_of (some s) c =
      let next = filter (λ (x : Contact). not (str_eq x.id s.id)) c.contacts in
      record c { contacts = next; selected_id = id_or c.selected_id next }

  unfoldable pub remove_selected : Card → Card
  unfolding selected
  remove_selected c = remove_of (selected c) c

-- `product in grouped`, in the order of the first contacts.
abbrev pub group_of : String → List (String × List Contact) → List Contact
group_of product m = elim (lookup product m) [ none ↦ [] | some items ↦ items ]

unfoldable pub group_from :
    List (String × List Contact) → List Contact → List (String × List Contact)
group_from m [] = m
group_from m (x ∷ xs) = group_from (insert x.product (group_of x.product m ++ x ∷ []) m) xs

unfoldable pub grouped : List Contact → List (String × List Contact)
unfolding group_from
grouped xs = group_from [] xs

unfoldable pub is_open : Card → String → Bool
is_open c product = includes c.open_groups product || not (is_empty (trim c.query))

unfoldable pub select_contact : Contact → Card → Card
select_contact x c = record c { selected_id = x.id }

abbrev pub contact_of : String → ContactDraft → Contact
contact_of id d = record {
  id = id;
  product = d.product;
  name = d.name;
  email = d.email;
  role = d.role;
  snow = if is_empty d.snow then "—" else d.snow;
  notes = d.notes;
}

-- `now` is the text of `Date.now()`.
unfoldable pub add_contact : String → Card → Card
add_contact now c = if is_empty (trim c.draft.name) then c else record c {
  contacts = c.contacts ++ contact_of ("c-" ◇ now) c.draft ∷ [];
  selected_id = "c-" ◇ now;
  adding = false;
  draft = empty_draft;
}
