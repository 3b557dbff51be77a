-- ===== src/Slash/Names.antt =====
-- Which command a name finds.
use rusty_kimi.Common.{
  String, ◌≡◌, refl, ◌∙◌, ap, List, [], ◌∷◌, Option, none, some, arith, if◌then◌else◌,
}
use rusty_kimi.Common.Eq.{string_eq, ◌=?◌, elem}
use rusty_kimi.Common.Dict.{Dict, lookup, insert, lookup-insert}
use rusty_kimi.Message.{Text}
use rusty_kimi.Slash.{
  SlashCommand, SlashCommandRegistry, new, insert_each, command, register, find_command,
}

module _ (F : Type 0) where
  -- A call of `register`.
  pub record Registration : Type 0 where
    pub name : String
    pub description : Text
    pub func : F
    pub aliases : List String

  abbrev pub register_all : List Registration → SlashCommandRegistry F → SlashCommandRegistry F
  register_all [] s = s
  register_all (g ∷ gs) s = register_all gs (register F g.name g.description g.func g.aliases s)

  abbrev pub made_by : Registration → SlashCommand F
  made_by g = command F g.name g.description g.func g.aliases

  -- The last registration under a name or an alias, or what was there before.
  abbrev pub latest : String → Option (SlashCommand F) → List Registration → Option (SlashCommand F)
  latest x o [] = o
  latest x o (g ∷ gs) = latest x (if elem x (g.name ∷ g.aliases) then some (made_by g) else o) gs

  -- The last registration under a name.
  abbrev pub latest_named :
      String → Option (SlashCommand F) → List Registration → Option (SlashCommand F)
  latest_named x o [] = o
  latest_named x o (g ∷ gs) = latest_named x (if g.name =? x then some (made_by g) else o) gs

  lookup-insert_each :
      (x : String) (names : List String) (cmd : SlashCommand F) (m : Dict String (SlashCommand F))
      → lookup x (insert_each F names cmd m) ≡ (if elem x names then some cmd else lookup x m)
  unfolding insert_each elem
  lookup-insert_each x [] cmd m = refl
  lookup-insert_each x (n ∷ names) cmd m =
      rw (lookup-insert_each x names cmd (insert n cmd m))
        (rw (lookup-insert n x cmd m) (ground arith))

  find_command-register :
      (x : String) (g : Registration) (s : SlashCommandRegistry F)
      → find_command F x (register F g.name g.description g.func g.aliases s)
        ≡ (if elem x (g.name ∷ g.aliases) then some (made_by g) else find_command F x s)
  unfolding find_command register elem
  find_command-register x g s =
      rw (lookup-insert_each x g.aliases (made_by g) (insert g.name (made_by g) s.aliases))
        (rw (lookup-insert g.name x (made_by g) s.aliases) (ground arith))

  lookup-register :
      (x : String) (g : Registration) (s : SlashCommandRegistry F)
      → lookup x (register F g.name g.description g.func g.aliases s).commands
        ≡ (if g.name =? x then some (made_by g) else lookup x s.commands)
  unfolding register
  lookup-register x g s = lookup-insert g.name x (made_by g) s.commands

  register_all-latest :
      (x : String) (gs : List Registration) (s : SlashCommandRegistry F)
      → (find_command F x (register_all gs s) ≡ latest x (find_command F x s) gs)
        × (lookup x (register_all gs s).commands ≡ latest_named x (lookup x s.commands) gs)
  unfolding find_command
  register_all-latest x [] s = (refl, refl)
  register_all-latest x (g ∷ gs) s =
      let (p, q) = register_all-latest x gs (register F g.name g.description g.func g.aliases s) in
      (
        p ∙ ap (λ o. latest x o gs) (find_command-register x g s),
        q ∙ ap (λ o. latest_named x o gs) (lookup-register x g s),
      )

  -- After any registrations, a name finds the command that was registered last under it, as its name
  -- or as an alias, and the listed command of a name is the one that was registered last under it as
  -- its name.
  pub find_command-latest :
      (x : String) (gs : List Registration)
      → (find_command F x (register_all gs (new F)) ≡ latest x none gs)
        × (lookup x (register_all gs (new F)).commands ≡ latest_named x none gs)
  unfolding find_command lookup
  find_command-latest x gs = register_all-latest x gs (new F)
