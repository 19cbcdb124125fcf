-- ===== src/Skills/Plugins/Npm.antt =====
-- `extractNpmPackageName` takes the version off a package specifier and nothing else.
use text.Mathlib.TextLemmas.{nil-append, cons-append}
use kubeopencode.Prelude.{ℕ, suc, String, ◌≡◌, refl, ◌≢◌, ap, none, some, arith, ◌∙◌, true, false}
use kubeopencode.Prelude.Text.{concat, prefix}
use kubeopencode.Skills.Plugins.{starts_at, index_at, tail, extract_npm_package_name}

size : String → ℕ
size String.[] = 0
size (String.◌∷◌ c s) = suc (size s)

index_at-concat :
    (a v : String) → index_at a ≡ none → index_at (concat a (concat "@" v)) ≡ some (size a)
unfolding index_at size
index_at-concat String.[] v h = rw (nil-append, cons-append)
index_at-concat (String.◌∷◌ c a) v h = rw cons-append (ground (arith, index_at-concat a v))

prefix-concat : (a b : String) → prefix (size a) (concat a b) ≡ a
unfolding prefix size
prefix-concat String.[] b = refl
prefix-concat (String.◌∷◌ c a) b = rw cons-append (ap (String.◌∷◌ c) (prefix-concat a b))

unscoped :
    (s : String) (n : ℕ)
    → starts_at s ≡ false
    → index_at s ≡ some n
    → extract_npm_package_name s ≡ prefix n s
unfolding extract_npm_package_name
unscoped s n h k = rw (h, k)

scoped :
    (s : String) (n : ℕ)
    → starts_at s ≡ true
    → index_at (tail s) ≡ some n
    → extract_npm_package_name s ≡ prefix (suc n) s
unfolding extract_npm_package_name
scoped s n h k = rw (h, k)

starts_at-concat :
    (name s : String) → name ≢ "" → index_at name ≡ none → starts_at (concat name s) ≡ false
unfolding starts_at index_at
starts_at-concat String.[] s ne h = absurd (ne refl)
starts_at-concat (String.◌∷◌ c name) s ne h = rw cons-append (ground arith)

at_concat : (s : String) → concat "@" s ≡ String.◌∷◌ "@" s
at_concat s = cons-append _ "" s ∙ ap (String.◌∷◌ "@") (nil-append s)

tail-concat : (s : String) → tail (concat "@" s) ≡ s
unfolding tail
tail-concat s = rw (cons-append, nil-append)

extract_npm_package_name-versioned :
    (name version : String)
    → name ≢ ""
    → index_at name ≡ none
    → extract_npm_package_name (concat name (concat "@" version)) ≡ name
extract_npm_package_name-versioned name version ne h =
    unscoped _ (size name) (starts_at-concat name _ ne h) (index_at-concat name version h)
    ∙ prefix-concat name _

prefix-scoped :
    (name b : String) → prefix (suc (size name)) (concat "@" (concat name b)) ≡ concat "@" name
unfolding prefix
prefix-scoped name b =
    rw (at_concat (concat name b), at_concat name) (ap (String.◌∷◌ "@") (prefix-concat name b))

extract_npm_package_name-scoped :
    (name version : String)
    → index_at name ≡ none
    → extract_npm_package_name (concat "@" (concat name (concat "@" version))) ≡ concat "@" name
unfolding starts_at prefix
extract_npm_package_name-scoped name version h =
    scoped (concat "@" (concat name (concat "@" version))) (size name) (rw cons-append)
      (rw tail-concat (index_at-concat name version h))
    ∙ prefix-scoped name _

-- Where a name is not empty and has no `@`, the specifier `name@version` names the package `name`,
-- and the specifier `@name@version` of a package with a scope names `@name`.
extract_npm_package_name-concat :
    (name version : String)
    → name ≢ ""
    → index_at name ≡ none
    → (extract_npm_package_name (concat name (concat "@" version)) ≡ name)
      × (extract_npm_package_name (concat "@" (concat name (concat "@" version))) ≡ concat "@" name)
extract_npm_package_name-concat name version ne h = (
  extract_npm_package_name-versioned name version ne h,
  extract_npm_package_name-scoped name version h,
)
