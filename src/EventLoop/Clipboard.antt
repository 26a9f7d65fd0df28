-- ===== src/EventLoop/Clipboard.antt =====
-- navigator.clipboard.writeText as the components call it, none of which awaits the promise: the text is
-- handed over, and the browser writes it later or refuses to. The clipboard is shared, so others write
-- it too.
use cloud_weave.Prelude.{
  Bool, true, false, Option, some, List, [], ◌∷◌, ◌++◌, ◌≡◌, refl, if◌then◌else◌,
}

-- What the clipboard holds, and the texts handed over that are not settled yet, the oldest first.
pub record Clipboard (A : Type 0) : Type 0 where
  pub content : Option A
  pub pending : List A

module _ {A : Type 0} where
  -- writeText(a)
  abbrev pub write_text : A → Clipboard A → Clipboard A
  write_text a c = record c { pending = c.pending ++ (a ∷ []) }

  abbrev settle_first : Bool → Option A → List A → Clipboard A
  settle_first granted old [] = record { content = old; pending = [] }
  settle_first true old (a ∷ rest) = record { content = some a; pending = rest }
  settle_first false old (a ∷ rest) = record { content = old; pending = rest }

  -- The promise of the oldest text is fulfilled or rejected.
  abbrev pub settle_text : Bool → Clipboard A → Clipboard A
  settle_text granted c = settle_first granted c.content c.pending

  -- Another part of the page or of the system writes the clipboard.
  abbrev pub overwrite : A → Clipboard A → Clipboard A
  overwrite a c = record c { content = some a }

  -- Every text handed over and still open is `b`.
  abbrev pub Only : A → List A → Type 0
  Only b [] = Unit
  Only b (a ∷ s) = (a ≡ b) × Only b s

  Only-snoc : (b : A) (s : List A) → Only b s → Only b (s ++ (b ∷ []))
  Only-snoc b [] h = (refl, tt)
  Only-snoc b (a ∷ s) h = (h.0, Only-snoc b s h.1)

  pub Only-write_text :
      (b : A) (c : Clipboard A) → Only b c.pending → Only b (write_text b c).pending
  Only-write_text b c h = Only-snoc b c.pending h

  Only-settle_first :
      (b : A) (granted : Bool) (old : Option A) (s : List A)
      → Only b s
      → Only b (settle_first granted old s).pending
  Only-settle_first b granted old [] h = tt
  Only-settle_first b true old (a ∷ rest) h = h.1
  Only-settle_first b false old (a ∷ rest) h = h.1

  pub Only-settle_text :
      (b : A) (granted : Bool) (c : Clipboard A)
      → Only b c.pending
      → Only b (settle_text granted c).pending
  Only-settle_text b granted c h = Only-settle_first b granted c.content c.pending h

  -- A text handed over when no other is open is written if that is granted, and otherwise the clipboard
  -- keeps what it holds.
  pub settle_text-write_text :
      (granted : Bool) (a : A) (c : Clipboard A)
      → c.pending ≡ []
      → settle_text granted (write_text a c)
        ≡ record { content = (if granted then some a else c.content); pending = [] }
  settle_text-write_text true a c e = rw e refl
  settle_text-write_text false a c e = rw e refl
