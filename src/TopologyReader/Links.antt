-- ===== src/TopologyReader/Links.antt =====
-- The links that the reader makes of the lines of their section.
use inc_sim.Base.{
  ◌≡◌, refl, Bool, true, false, ◌&&◌, ◌||◌, List, [], ◌∷◌, ◌++◌, inl, inr, Bool-cases, any,
  if◌then◌else◌, arith,
}
use inc_sim.Base.Text.{Text, text_eq, text_eq_iff}
use inc_sim.Base.Gives.{Succeeds, Succeeds-ok, Succeeds-mono}
use inc_sim.Ndn.{Ndn, Nfd}
use inc_sim.TopologyReader.{Directory, Reader, Link, read_link}
use inc_sim.TopologyReader.Sections.{is_blank, is_processed, ends_links, link_line, link_section}

-- The links that the lines up to the next heading say.
unfoldable pub link_lines : List Text → List Link
unfolding ends_links read_link
link_lines [] = []
link_lines (line ∷ lines) =
    let rest = link_lines lines in
    if ends_links line then [] else if is_blank line then rest else read_link line ∷ rest

-- A link goes from one node to another, or joins them in either direction.
abbrev pub goes : Text → Text → Link → Bool
goes a b link = text_eq link.from a && text_eq link.to b

abbrev pub joins : Text → Text → Link → Bool
joins a b link = goes a b link || goes b a link

any-push : (p : Link → Bool) (xs : List Link) (x : Link) → any p (xs ++ x ∷ []) ≡ (any p xs || p x)
any-push p [] x = ground arith
any-push p (y ∷ xs) x = ground (arith, any-push p xs x)

any-joins :
    (a b : Text) (xs : List Link) → any (joins a b) xs ≡ (any (goes a b) xs || any (goes b a) xs)
any-joins a b [] = refl
any-joins a b (x ∷ xs) = ground (arith, any-joins a b xs)

-- The nodes of all links are there.
abbrev pub all_known : (D : Directory) → List Link → D.Names → Bool
all_known D [] names = true
all_known D (link ∷ links) names =
    D.has link.from names && D.has link.to names && all_known D links names

module _ {N : Ndn} {F : Nfd N} {D : Directory} where
  -- What the lines that say `said` make of a reader: it joins two nodes exactly if it did so before or
  -- a line joins them, has no two nodes joined in both directions, and each of its links is, with all
  -- its attributes, one of before or of the lines; nothing else is changed.
  pub record Linked (said : List Link) (r r' : Reader N F D) : Type 0 where
    pub connects :
        (a b : Text)
        → any (joins a b) r'.links_list ≡ (any (joins a b) r.links_list || any (joins a b) said)
    pub one_way :
        (a b : Text)
        → text_eq a b ≡ false
        → (any (goes a b) r'.links_list && any (goes b a) r'.links_list) ≡ false
    pub read_off :
        (p : Link → Bool) → any p r'.links_list ≡ true → (any p r.links_list || any p said) ≡ true
    pub kept : r' ≡ record r { links_list = r'.links_list }

  -- `processedLinks` has the links of the reader, which joins no two nodes in both directions.
  record Tracked (processed : List (Text × Text)) (r : Reader N F D) : Type 0 where
    agrees : (a b : Text) → is_processed a b processed ≡ any (goes a b) r.links_list
    apart :
        (a b : Text)
        → text_eq a b ≡ false
        → (any (goes a b) r.links_list && any (goes b a) r.links_list) ≡ false

  abbrev add_link : Link → Reader N F D → Reader N F D
  add_link link r = record r { links_list = r.links_list ++ link ∷ [] }

  add_link-Tracked :
      (link : Link) (processed : List (Text × Text)) (r : Reader N F D)
      → Tracked processed r
      → is_processed link.to link.from processed ≡ false
      → Tracked ((link.from, link.to) ∷ processed) (add_link link r)
  unfolding is_processed
  add_link-Tracked link processed r t h = record {
    agrees = λ a b. ground (arith, t.agrees a b, any-push (goes a b) r.links_list link);
    apart = λ a b e. ground (
      arith,
      t.apart a b e,
      any-push (goes a b) r.links_list link,
      any-push (goes b a) r.links_list link,
      text_eq_iff link.from a,
      text_eq_iff link.to b,
      text_eq_iff link.from b,
      text_eq_iff link.to a,
      text_eq_iff a b,
      t.agrees link.to link.from,
      h,
    );
  }

  add_link-Linked :
      (link : Link) (said : List Link) (r r' : Reader N F D)
      → Linked said (add_link link r) r'
      → Linked (link ∷ said) r r'
  add_link-Linked link said r r' l = record {
    connects = λ a b. ground (arith, l.connects a b, any-push (joins a b) r.links_list link);
    one_way = l.one_way;
    read_off = λ p e. ground (arith, l.read_off p e, any-push p r.links_list link);
    kept = l.kept;
  }

  skip_link-Linked :
      (link : Link) (said : List Link) (r r' : Reader N F D)
      → any (goes link.to link.from) r.links_list ≡ true
      → Linked said r r'
      → Linked (link ∷ said) r r'
  skip_link-Linked link said r r' h l = record {
    connects = λ a b. ground (
      arith,
      l.connects a b,
      any-joins a b r.links_list,
      text_eq_iff link.from a,
      text_eq_iff link.to b,
      text_eq_iff link.from b,
      text_eq_iff link.to a,
      h,
    );
    one_way = l.one_way;
    read_off = λ p e. ground (arith, l.read_off p e);
    kept = l.kept;
  }

  link_section-Linked :
      (lines : List Text) (processed : List (Text × Text)) (r : Reader N F D)
      → Tracked processed r
      → all_known D (link_lines lines) r.names ≡ true
      → Succeeds (λ s. Linked (link_lines lines) r s.reader) (link_section lines (processed, r))
  unfolding link_section link_lines link_line
  link_section-Linked [] processed r t h = Succeeds-ok _ (record {
    connects = λ a b. ground arith;
    one_way = t.apart;
    read_off = λ p e. ground arith;
    kept = refl;
  })
  link_section-Linked (line ∷ lines) processed r t h = elim (Bool-cases (ends_links line)) [
    | inl heading ↦ rw heading (
        Succeeds-ok _ (record {
          connects = λ a b. ground arith;
          one_way = t.apart;
          read_off = λ p e. ground arith;
          kept = refl;
        }))
    | inr going ↦ elim (Bool-cases (is_blank line)) [
      | inl blank ↦
          rw (going, blank)
            (link_section-Linked lines processed r t (ground (arith, h, going, blank)))
      | inr content ↦
          let link = read_link line in
          let known : (D.has link.from r.names && D.has link.to r.names) ≡ true =
            ground (arith, h, going, content) in
          let others : all_known D (link_lines lines) r.names ≡ true =
            ground (arith, h, going, content) in
          elim (Bool-cases (is_processed link.to link.from processed)) [
            | inl double ↦
                let later = link_section-Linked lines processed r t others in
                rw (going, content, double)
                  (Succeeds-mono _
                    (λ s l.
                      skip_link-Linked link (link_lines lines) r s.reader
                        (ground (arith, t.agrees link.to link.from, double)) l)
                    later)
            | inr new ↦
                let later =
                  link_section-Linked lines ((link.from, link.to) ∷ processed) (add_link link r)
                    (add_link-Tracked link processed r t new) others in
                rw (going, content, new, known)
                  (Succeeds-mono _ (λ s l. add_link-Linked link (link_lines lines) r s.reader l)
                    later)
          ]
    ]
  ]

  -- Let a reader that has no links know the nodes of all links that the lines up to the next heading
  -- say. Then the loop over the links succeeds, and joins two nodes exactly if a line does, in the one
  -- or the other direction; no two different nodes are joined in both directions; every link is, with
  -- all its attributes, that of a line; and nothing else of the reader is changed.
  pub link_section_lem :
      (lines : List Text) (r : Reader N F D)
      → r.links_list ≡ []
      → all_known D (link_lines lines) r.names ≡ true
      → Succeeds (λ s. Linked (link_lines lines) r s.reader) (link_section lines ([], r))
  unfolding is_processed
  link_section_lem lines r e h =
      link_section-Linked lines [] r
        (record { agrees = λ a b. rw e refl; apart = λ a b d. rw e refl }) h
