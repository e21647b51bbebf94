-- ===== src/Agent/Prompts.antt =====
-- RI/agents/example_agent/prompts/store.py: prompts are published in versions.
use enterprise_mcp_service_b.Base.{
  ℕ, ◌+◌, String, ◌≡◌, refl, sym, ◌∙◌, true, Bool-cases, Option, none, some, List, [], ◌∷◌, ◌++◌,
  Result, ok, err, inl, inr, Dict, get, put, get-put, ◌==◌, eq_iff, length, if◌then◌else◌, arith,
}
use mathlib.Core.List.{append_assoc, append-nil}

pub record PromptVersion : Type 0 where
  pub name : String
  pub version : ℕ
  pub content : String
  pub created_at : ℕ

-- `PromptVersionStore._versions`
abbrev pub PromptVersionStore : Type 0
PromptVersionStore = Dict (List PromptVersion)

pub data PromptError : Type 0 where
  unknown_prompt : String → PromptError

abbrev versions : Option (List PromptVersion) → List PromptVersion
versions none = []
versions (some vs) = vs

-- `history`
unfoldable pub history : String → PromptVersionStore → List PromptVersion
history name store = versions (get store name)

-- `publish`
unfoldable pub publish :
    String → String → ℕ → PromptVersionStore → PromptVersion × PromptVersionStore
unfolding history
publish name content now store =
    let version : PromptVersion = record {
      name = name;
      version = length (history name store) + 1;
      content = content;
      created_at = now;
    } in
    (version, put store name (history name store ++ version ∷ []))

abbrev last_of : String → List PromptVersion → Result PromptError PromptVersion
last_of name [] = err (unknown_prompt name)
last_of name (v ∷ []) = ok v
last_of name (v ∷ w ∷ vs) = last_of name (w ∷ vs)

-- `latest`
unfoldable pub latest : String → PromptVersionStore → Result PromptError PromptVersion
unfolding history
latest name store = last_of name (history name store)

-- One call of `publish`, and a sequence of them
pub record Publication : Type 0 where
  pub name : String
  pub content : String
  pub now : ℕ

unfoldable pub publish_all : List Publication → PromptVersionStore → PromptVersionStore
publish_all [] store = store
publish_all (p ∷ ps) store = publish_all ps (publish p.name p.content p.now store).1

-- The publications under a name, numbered from `first` on
abbrev pub numbered : String → ℕ → List Publication → List PromptVersion
numbered name first [] = []
numbered name first (p ∷ ps) =
    if p.name == name
    then record { name = name; version = first; content = p.content; created_at = p.now }
      ∷ numbered name (first + 1) ps
    else numbered name first ps

history-publish :
    (name other content : String) (now : ℕ) (store : PromptVersionStore)
    → history other (publish name content now store).1 ≡ (
        if name == other
        then history name store
          ++ record {
            name = name;
            version = length (history name store) + 1;
            content = content;
            created_at = now;
          }
            ∷ []
        else history other store)
unfolding history publish
history-publish name other content now store = ground (
  arith,
  get-put store name other (history name store ++ (publish name content now store).0 ∷ []),
)

length-snoc : (vs : List PromptVersion) (v : PromptVersion) → length (vs ++ v ∷ []) ≡ length vs + 1
length-snoc [] v = refl
length-snoc (w ∷ vs) v = omega (arith, length-snoc vs v)

publish-same :
    (p : Publication) (name : String) (store : PromptVersionStore)
    → (p.name == name) ≡ true
    → history name (publish p.name p.content p.now store).1
      ≡ history name store
        ++ record {
          name = name;
          version = length (history name store) + 1;
          content = p.content;
          created_at = p.now;
        }
          ∷ []
publish-same p name store e =
    let same : p.name ≡ name = (eq_iff p.name name).0 e in
    history-publish p.name name p.content p.now store ∙ rw e (rw same refl)

history-publish_all :
    (name : String) (ps : List Publication) (store : PromptVersionStore) (vs : List PromptVersion)
    → history name store ≡ vs
    → history name (publish_all ps store) ≡ vs ++ numbered name (length vs + 1) ps
unfolding publish_all
history-publish_all name [] store vs h = h ∙ sym (append-nil vs)
history-publish_all name (p ∷ ps) store vs h = elim (Bool-cases (p.name == name)) [
  | inl e ↦
      let v : PromptVersion = record {
        name = name;
        version = length vs + 1;
        content = p.content;
        created_at = p.now;
      } in
      let now_held : history name (publish p.name p.content p.now store).1 ≡ vs ++ v ∷ [] =
        publish-same p name store e ∙ rw h refl in
      let next : (vs ++ v ∷ []) ++ numbered name (length (vs ++ v ∷ []) + 1) ps
          ≡ vs ++ (v ∷ numbered name (length vs + 1 + 1) ps) =
        rw (length-snoc vs v) (append_assoc vs (v ∷ []) (numbered name (length vs + 1 + 1) ps)) in
      rw e (
        history-publish_all name ps (publish p.name p.content p.now store).1 (vs ++ v ∷ []) now_held
        ∙ next)
  | inr e ↦ rw e (
      history-publish_all name ps (publish p.name p.content p.now store).1 vs
        (history-publish p.name name p.content p.now store ∙ rw e h))
]

-- Prompts are append-only: over any sequence of publications, the history of a name is what it was
-- before, followed by one version for each publication under that name, in their order, with its
-- content, numbered on from the last one.
pub publish_all_appends :
    (name : String) (ps : List Publication) (store : PromptVersionStore)
    → history name (publish_all ps store)
      ≡ history name store ++ numbered name (length (history name store) + 1) ps
publish_all_appends name ps store = history-publish_all name ps store (history name store) refl
