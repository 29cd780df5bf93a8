-- ===== src/Gateway/Tools/Routing.antt =====
-- Where a call of a tool goes: gateway/capability/gw_tools_call.go.
use mathlib.Core.Path.{subst}
use gate4ai.Prelude.{
  ◌≡◌, ◌⊎◌, inl, inr, refl, sym, ap, ◌∙◌, not, ◌&&◌, Option, none, some, List, [], ◌∷◌, map, String,
  ◌<>◌, ◌==◌, eq_iff, ltb, if_cases, str_ne, length, All, All-append,
}
use gate4ai.Gateway.Tools.{
  route_of, modify_duplicate, items_of, tools_of, Tool, Fetched, fetched, fetch_fails, all_items,
  servers_of, modify_name, fetch_and_combine, find_tool, to_backend, route_call,
}

-- A server lists a name.
abbrev pub Lists : List (String × String) → String → Type 0
Lists [] name = ⊥
Lists ((n, d) ∷ ts) name = (n ≡ name) ⊎ Lists ts name

abbrev pub Offers : List (String × Fetched) → String → String → Type 0
Offers [] slug name = ⊥
Offers ((s, fetched ts) ∷ more) slug name = ((s ≡ slug) × Lists ts name) ⊎ Offers more slug name
Offers ((s, fetch_fails e) ∷ more) slug name = Offers more slug name

-- The name under which the client sees a tool.
abbrev pub IsNameOf : String → String → String → Type 0
IsNameOf name slug original = (name ≡ original) ⊎ (name ≡ slug <> ":" <> original)

abbrev IsGood : (String → String → Type 0) → Tool → Type 0
IsGood P t = P t.server_slug t.original_name × IsNameOf t.name t.server_slug t.original_name

tools_of-IsGood :
    (P : String → String → Type 0) (slug : String) (ts : List (String × String))
    → ((n : String) → Lists ts n → P slug n)
    → All (IsGood P) (tools_of slug ts)
unfolding tools_of
tools_of-IsGood P slug [] f = tt
tools_of-IsGood P slug ((n, d) ∷ ts) f =
    ((f n (inl refl), inl refl), tools_of-IsGood P slug ts (λ m l. f m (inr l)))

all_items-IsGood :
    (P : String → String → Type 0) (rs : List (String × Fetched))
    → ((s n : String) → Offers rs s n → P s n)
    → All (IsGood P) (all_items rs)
unfolding all_items items_of
all_items-IsGood P [] f = tt
all_items-IsGood P ((slug, fetched ts) ∷ rs) f =
    All-append (IsGood P) (tools_of slug ts) (all_items rs)
      (tools_of-IsGood P slug ts (λ n l. f slug n (inl (refl, l))))
      (all_items-IsGood P rs (λ s n o. f s n (inr o)))
all_items-IsGood P ((slug, fetch_fails e) ∷ rs) f = all_items-IsGood P rs f

renamed :
    (P : String → String → Type 0) (t : Tool) → IsGood P t → IsGood P (modify_name t t.server_slug)
unfolding modify_name
renamed P t g = (g.0, inr refl)

modify-IsGood :
    (P : String → String → Type 0) (ts us : List Tool)
    → All (IsGood P) us
    → All (IsGood P) (map (modify_duplicate ts) us)
unfolding modify_duplicate
modify-IsGood P ts [] g = tt
modify-IsGood P ts (t ∷ us) g = (
  if_cases (IsGood P) (ltb 1 (length (servers_of ts t.name)) && not (t.server_slug == ""))
      (modify_name t t.server_slug) t (λ h. renamed P t g.0) (λ h. g.0),
  modify-IsGood P ts us g.1,
)

found-IsGood :
    (P : Tool → Type 0) (ts : List Tool) (name : String) (t : Tool)
    → All P ts
    → find_tool ts name ≡ some t
    → P t × (t.name ≡ name)
unfolding find_tool
found-IsGood P [] name t g h = absurd (cc)
found-IsGood P (u ∷ ts) name t g h =
    if_cases (λ (o : Option Tool). o ≡ some t → P t × (t.name ≡ name)) (u.name == name) (some u)
      (find_tool ts name)
      (λ e k.
        let same : u ≡ t = cc in
        (subst P same g.0, ap (λ (x : Tool). x.name) (sym same) ∙ (eq_iff u.name name).0 e))
      (λ e k. found-IsGood P ts name t g.1 k) h

route_of_found :
    (name slug original : String) (o : Option Tool)
    → route_of name o ≡ to_backend slug original
    → (t : Tool) × (o ≡ some t) × (t.server_slug ≡ slug) × (t.original_name ≡ original)
unfolding route_of
route_of_found name slug original none h = absurd (cc)
route_of_found name slug original (some t) h = (t, refl, cc, cc)

-- A call of a tool goes to a server that lists the tool under the name that is sent to it, and the
-- client's name is that name, or the server's slug, a colon and that name.
pub route_call-IsNameOf :
    (results : List (String × Fetched)) (name slug original : String)
    → route_call (fetch_and_combine results) name ≡ to_backend slug original
    → Offers results slug original × IsNameOf name slug original
unfolding route_call fetch_and_combine
route_call-IsNameOf results name slug original h =
    let ts = all_items results in
    let combined = map (modify_duplicate ts) ts in
    let (t, e, s, o) = route_of_found name slug original (find_tool combined name) h in
    let (good, n) =
      found-IsGood (IsGood (Offers results)) combined name t
        (modify-IsGood (Offers results) ts ts
          (all_items-IsGood (Offers results) results (λ a b x. x)))
        e in
    (
      subst (λ x. Offers results x original) s
          (subst (λ y. Offers results t.server_slug y) o good.0),
      subst (λ x. IsNameOf name x original) s
          (subst (λ y. IsNameOf name t.server_slug y) o
            (subst (λ z. IsNameOf z t.server_slug t.original_name) n good.1)),
    )

-- A name in the list, at whatever place.
abbrev pub IsListed : List Tool → Tool → Type 0
IsListed [] t = ⊥
IsListed (u ∷ ts) t = (u ≡ t) ⊎ IsListed ts t

abbrev pub HasName : List Tool → String → Type 0
HasName [] name = ⊥
HasName (u ∷ ts) name = (u.name ≡ name) ⊎ HasName ts name

abbrev pub DistinctNames : List Tool → Type 0
DistinctNames [] = Unit {0}
DistinctNames (u ∷ ts) = ¬ HasName ts u.name × DistinctNames ts

listed-HasName : (ts : List Tool) (t : Tool) → IsListed ts t → HasName ts t.name
listed-HasName [] t l = elim l [ ]
listed-HasName (u ∷ ts) t (inl e) = inl (ap (λ (x : Tool). x.name) e)
listed-HasName (u ∷ ts) t (inr l) = inr (listed-HasName ts t l)

find-listed :
    (ts : List Tool) (t : Tool) → DistinctNames ts → IsListed ts t → find_tool ts t.name ≡ some t
unfolding find_tool
find-listed [] t d l = elim l [ ]
find-listed (u ∷ ts) t d (inl e) =
    rw ((eq_iff u.name t.name).1 (ap (λ (x : Tool). x.name) e)) (ap some e)
find-listed (u ∷ ts) t d (inr l) =
    rw (str_ne u.name t.name (λ e. d.0 (subst (HasName ts) (sym e) (listed-HasName ts t l))))
      (find-listed ts t d.1 l)

-- Where the names of the combined list are distinct, a call of a listed tool goes to the server that
-- the tool is from, under its name there.
pub route_call_listed :
    (ts : List Tool) (t : Tool)
    → DistinctNames ts
    → IsListed ts t
    → route_call ts t.name ≡ to_backend t.server_slug t.original_name
unfolding route_call route_of
route_call_listed ts t d l = ap (route_of t.name) (find-listed ts t d l)
