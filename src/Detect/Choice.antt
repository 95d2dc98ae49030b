-- ===== src/Detect/Choice.antt =====
-- src/lib.rs: which of the two parsers gives the tree.
use isomage.Prelude.{
  ℕ, ◌≡◌, ◌≢◌, ◌↔◌, refl, sym, ap, ◌∙◌, List, Option, none, some, Result, ok, err,
}
use isomage.Text.{Str}
use isomage.Reader.{Reader, seek_start, read_at}
use isomage.Tree.{TreeNode}
use isomage.Iso9660.Record
use isomage.Iso9660.{parse_iso9660}
use isomage.Iso9660.Keeps.{parse_iso9660-KeepsImage}
use isomage.Udf.Allocation
use isomage.Udf.{parse_udf, vrs_loop}
use isomage.Detect.{
  Error, unsupported, iso9660_end, udf_end, after_udf, after_rewind, after_iso9660,
  detect_and_parse_filesystem,
}

-- The first read of the UDF parser does not depend on the cursor.
parse_udf_cursor :
    (depth : ℕ) (image : List ℕ) (p q : ℕ)
    → parse_udf depth (record { image = image; pos = p })
      ≡ parse_udf depth (record { image = image; pos = q })
unfolding parse_udf vrs_loop read_at
parse_udf_cursor depth image p q = refl

after_udf-eq-ok :
    (filename : Str) (e : Record.Error) (x : Result Allocation.Error TreeNode × Reader)
    (root : TreeNode)
    → ((after_udf filename e x).0 ≡ ok root) ↔ (x.0 ≡ ok root)
unfolding after_udf
after_udf-eq-ok filename e (ok t, r) root = (λ h. cc, λ h. cc)
after_udf-eq-ok filename e (err e', r) root = (stopped (udf_end e'), λ h. cc)
  where
    stopped :
        (o : Option Error)
        → (let y : Result Error TreeNode × Reader = elim o [
          | some s ↦ (err s, r)
          | none ↦ (err (unsupported filename e e'), r)
        ] in
            y.0)
          ≡ ok root
        → ◌≡◌ {A = Result Allocation.Error TreeNode} (err e') (ok root)
    stopped none h = cc
    stopped (some s) h = cc

-- The tree of ISO 9660, or else that of UDF, where the first failure is one to go on from.
pub data Chosen (depth : ℕ) (r : Reader) (root : TreeNode) : Type 0 where
  iso : (parse_iso9660 depth r).0 ≡ ok root → Chosen depth r root
  udf :
      (e : Record.Error)
      → (parse_iso9660 depth r).0 ≡ err e
      → iso9660_end e ≡ none
      → (parse_udf depth r).0 ≡ ok root
      → Chosen depth r root

ok-ne-err : {E A : Type 0} {a : A} {e : E} → ◌≢◌ {A = Result E A} (ok a) (err e)
ok-ne-err h = cc

ok_inj : {E A : Type 0} {a b : A} → ◌≡◌ {A = Result E A} (ok a) (ok b) → a ≡ b
ok_inj h = cc

err_inj : {E A : Type 0} {e f : E} → ◌≡◌ {A = Result E A} (err e) (err f) → e ≡ f
err_inj h = cc

some-ne-none : {A : Type 0} {a : A} → some a ≢ none
some-ne-none h = cc

-- UDF runs from the start of the image, in whatever state ISO 9660 has left the reader.
after_rewind-eq-ok :
    (depth : ℕ) (filename : Str) (e : Record.Error) (r r' : Reader) (root : TreeNode)
    → r'.image ≡ r.image
    → ((after_rewind depth filename e (seek_start 0 r')).0 ≡ ok root)
      ↔ ((parse_udf depth r).0 ≡ ok root)
unfolding after_rewind seek_start
after_rewind-eq-ok depth filename e r r' root same =
    let moved : parse_udf depth (record r' { pos = 0 }) ≡ parse_udf depth r =
      ap (λ image. parse_udf depth (record { image = image; pos = 0 })) same
      ∙ parse_udf_cursor depth r.image 0 r.pos in
    rw moved (after_udf-eq-ok filename e (parse_udf depth r) root)

after_iso9660-eq-ok :
    (depth : ℕ) (filename : Str) (r : Reader) (root : TreeNode)
    (x : Result Record.Error TreeNode × Reader)
    → parse_iso9660 depth r ≡ x
    → x.1.image ≡ r.image
    → ((after_iso9660 depth filename x).0 ≡ ok root) ↔ Chosen depth r root
unfolding after_iso9660
after_iso9660-eq-ok depth filename r root (ok t, r') e same = (
  (λ h. iso (ap (λ x. x.0) e ∙ ap ok (ok_inj h))),
  λ c. elim c [
    | iso h ↦ ap ok (ok_inj (sym (ap (λ x. x.0) e) ∙ h))
    | udf f h go parsed ↦ absurd (ok-ne-err (sym (ap (λ x. x.0) e) ∙ h))
  ],
)
after_iso9660-eq-ok depth filename r root (err f, r') e same = by_end (iso9660_end f) refl
  where
    by_end :
        (o : Option Error)
        → iso9660_end f ≡ o
        → ((let y : Result Error TreeNode × Reader = elim o [
          | some s ↦ (err s, r')
          | none ↦ after_rewind depth filename f (seek_start 0 r')
        ] in
              y.0)
            ≡ ok root)
          ↔ Chosen depth r root
    by_end none go =
        let (there, back) = after_rewind-eq-ok depth filename f r r' root same in
        (
          (λ h. udf f (ap (λ x. x.0) e) go (there h)),
          λ c. elim c [
            | iso h ↦ absurd (ok-ne-err (sym h ∙ ap (λ x. x.0) e))
            | udf f' h go' parsed ↦ back parsed
          ],
        )
    by_end (some s) ends = (
      (λ h. absurd (ok-ne-err (sym h))),
      λ c. elim c [
        | iso h ↦ absurd (ok-ne-err (sym h ∙ ap (λ x. x.0) e))
        | udf f' h go' parsed ↦
            let same_failure : f' ≡ f = err_inj (sym h ∙ ap (λ x. x.0) e) in
            absurd (some-ne-none (sym ends ∙ ap iso9660_end (sym same_failure) ∙ go'))
      ],
    )

-- The detection returns a tree exactly if ISO 9660 gives that tree, or if it fails and UDF gives
-- that tree on the same image; neither the cursor nor what ISO 9660 has read matters for UDF.
pub detect_and_parse_filesystem_iff :
    (depth : ℕ) (filename : Str) (r : Reader) (root : TreeNode)
    → ((detect_and_parse_filesystem depth filename r).0 ≡ ok root) ↔ Chosen depth r root
unfolding detect_and_parse_filesystem
detect_and_parse_filesystem_iff depth filename r root =
    after_iso9660-eq-ok depth filename r root (parse_iso9660 depth r) refl
      (parse_iso9660-KeepsImage depth r)
