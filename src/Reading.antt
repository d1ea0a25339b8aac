-- ===== src/Reading.antt =====
-- Texts that a reader takes apart piece by piece, whatever follows them.
use mathlib.Core.Option
use mathlib.Core.List.{append_assoc, append-nil}
use syncmaster.Prelude.{
  All, List, Option, Text, [], map, join, none, refl, some, sym, ap, subst, ◌++◌, ◌∙◌, ◌≡◌, ◌∷◌,
}

module _ {T : Type 0} where
  prepend_twice :
      (ts us : List T) (o : Option (List T))
      → Option.map (λ vs. ts ++ vs) (Option.map (λ vs. us ++ vs) o)
        ≡ Option.map (λ vs. (ts ++ us) ++ vs) o
  prepend_twice ts us none = refl
  prepend_twice ts us (some vs) = ap some (sym (append_assoc ts us vs))

  prepend_nothing : (o : Option (List T)) → o ≡ Option.map (λ us. [] ++ us) o
  prepend_nothing none = refl
  prepend_nothing (some us) = refl

module _ {T : Type 0} (read : Text → Option (List T)) where
  -- A text is read as these tokens, whatever follows.
  abbrev pub Reads : Text → List T → Type 0
  Reads s ts = (rest : Text) → read (s ++ rest) ≡ Option.map (λ us. ts ++ us) (read rest)

  pub Reads-append :
      (s t : Text) (ts us : List T) → Reads s ts → Reads t us → Reads (s ++ t) (ts ++ us)
  Reads-append s t ts us hs ht rest =
      rw (append_assoc s t rest, hs (t ++ rest), ht rest) (prepend_twice ts us (read rest))

  pub Reads-nil : Reads [] []
  Reads-nil rest = prepend_nothing (read rest)

  -- A text that is read as these tokens, and nothing more.
  pub Reads-whole : read [] ≡ some [] → (s : Text) (ts : List T) → Reads s ts → read s ≡ some ts
  Reads-whole at_end s ts h =
      subst (λ t. read t ≡ some ts) (append-nil s) (h [] ∙ rw at_end (ap some (append-nil ts)))

  -- The texts of a list, each with its tokens, between separators.
  pub Reads-join :
      {A : Type 0} (text : A → Text) (tokens : A → List T) (P : A → Type 0) (sep : Text)
      (mid : List T)
      → Reads sep mid
      → ((a : A) → P a → Reads (text a) (tokens a))
      → (xs : List A) → All P xs
      → Reads (join sep (map text xs)) (join mid (map tokens xs))
  Reads-join text tokens P sep mid hs each [] h = Reads-nil
  Reads-join text tokens P sep mid hs each (x ∷ []) h =
      Reads-append (text x) [] (tokens x) [] (each x h.0) Reads-nil
  Reads-join text tokens P sep mid hs each (x ∷ y ∷ xs) h =
      Reads-append (text x) _ (tokens x) _ (each x h.0)
        (Reads-append sep _ mid _ hs (Reads-join text tokens P sep mid hs each (y ∷ xs) h.1))
