-- ===== src/Validation/Checks.antt =====
-- The single checks of a validation, and what a node has to answer.
use stack_forge.Base.{
  ℕ, String, ◌≡◌, refl, sym, ◌∙◌, Bool, true, false, not, ◌||◌, inl, inr, Bool-cases, List, [], ◌∷◌,
  leb, All, ◌==◌, Extends, ◌&>◌, restate,
}
use stack_forge.Text.{contains, is_set}
use stack_forge.Maps.{StringMap, lookup_or}
use stack_forge.Validation.{
  Report, add, add_either, fail_on, is_supported, required_ports, check_ports, check_firewall,
  check_facts,
}

abbrev pub is_ok : Report → Bool
is_ok r = r.safe

-- A report is safe behind a check exactly if it was safe before and the check holds.
abbrev pub Adds : Type 0 → Report → Report → Type 0
Adds P before after = Extends is_ok P before after

pub same-Adds : {P : Type 0} (r after : Report) → P → after.safe ≡ r.safe → Adds P r after
same-Adds r after p h = record { iff = (λ e. (p, sym h ∙ e), λ (p, e). h ∙ e) }

pub either-Adds :
    (node name good bad : String) (b : Bool) (r : Report)
    → Adds (b ≡ true) r (add_either node name b good "fail" bad r)
unfolding add_either add
either-Adds node name good bad true r = record { iff = (λ h. (refl, h), λ (b, h). h) }
either-Adds node name good bad false r = record { iff = (λ h. cc h, λ (b, h). cc b) }

warns-Adds :
    (node name good bad : String) (b : Bool) (r : Report)
    → Adds Unit r (add_either node name b good "warn" bad r)
unfolding add_either add
warns-Adds node name good bad true r = same-Adds _ _ tt refl
warns-Adds node name good bad false r = same-Adds _ _ tt refl

pub fail_on-Adds :
    (b : Bool) (node name message : String) (r : Report)
    → Adds (b ≡ false) r (fail_on b node name message r)
unfolding fail_on add
fail_on-Adds true node name message r = record { iff = (λ h. cc h, λ (b, h). cc b) }
fail_on-Adds false node name message r = same-Adds _ _ refl refl

pub unless-Adds :
    (b : Bool) (node name message : String) (r : Report)
    → Adds (b ≡ true) r (fail_on (not b) node name message r)
unfolding fail_on add
unless-Adds true node name message r = same-Adds _ _ refl refl
unless-Adds false node name message r = record { iff = (λ h. cc h, λ (b, h). cc b) }

check_ports-Adds :
    (node listening : String) (ports : List String) (r : Report)
    → Adds
        (All (λ port. contains listening port ≡ false) ports)
        r
        (check_ports node listening ports r)
unfolding check_ports
check_ports-Adds node listening [] r = same-Adds _ _ tt refl
check_ports-Adds node listening (port ∷ ports) r =
    fail_on-Adds (contains listening port) _ _ _ r &> check_ports-Adds node listening ports _

check_firewall-Adds :
    (node : String) (allow_none : Bool) (found active : String) (r : Report)
    → Adds ((found == "ufw" || allow_none) ≡ true) r (check_firewall node allow_none found active r)
unfolding check_firewall add add_either
check_firewall-Adds node allow_none found active r = elim (Bool-cases (found == "ufw")) [
  | inl ufw ↦ rw ufw (elim (Bool-cases (active == "yes")) [
    | inl e ↦ rw e (same-Adds _ _ refl refl)
    | inr e ↦ rw e (same-Adds _ _ refl refl)
  ])
  | inr other ↦ rw other (elim (Bool-cases allow_none) [
    | inl b ↦ rw b (elim (Bool-cases (found == "nftables")) [
      | inl e ↦ rw e (same-Adds _ _ refl refl)
      | inr e ↦ rw e (same-Adds _ _ refl refl)
    ])
    | inr b ↦ rw b (elim (Bool-cases (found == "nftables")) [
      | inl e ↦ rw e (record { iff = (λ h. cc h, λ (p, h). cc p) })
      | inr e ↦ rw e (record { iff = (λ h. cc h, λ (p, h). cc p) })
    ])
  ])
]

-- What a node has to answer.
pub record IsReady (parse_int : String → ℕ) (facts : StringMap String) (allow_none : Bool)
    : Type 0 where
  pub os : is_supported (lookup_or "" "os" facts) ≡ true
  pub sudo : (lookup_or "" "sudo" facts == "ok") ≡ true
  pub apt : (lookup_or "" "apt" facts == "ok") ≡ true
  pub systemd : (lookup_or "" "systemd" facts == "ok") ≡ true
  pub disk : leb 20480 (parse_int (lookup_or "" "disk_mb" facts)) ≡ true
  pub ram : leb 2048 (parse_int (lookup_or "" "ram_mb" facts)) ≡ true
  pub firewall : (lookup_or "" "firewall" facts == "ufw" || allow_none) ≡ true
  pub free : All (λ port. contains (lookup_or "" "ports" facts) port ≡ false) required_ports
  pub networked : is_set (lookup_or "" "private_ip" facts) ≡ true
  pub inside : (lookup_or "" "private_interface" facts == "fail") ≡ false
  pub outside : (lookup_or "" "public_interface" facts == "fail") ≡ false

module _ (parse_int : String → ℕ) where
  pub check_facts-Adds :
      (node : String) (facts : StringMap String) (allow_none : Bool) (r : Report)
      → Adds (IsReady parse_int facts allow_none) r (check_facts parse_int node facts allow_none r)
  unfolding check_facts
  check_facts-Adds node facts allow_none r =
      restate
        (λ (((((((((((((a, b), c), d), u), v), w), e), f), g), h), i), j), k). record {
          os = a;
          sudo = b;
          apt = c;
          systemd = d;
          disk = e;
          ram = f;
          firewall = g;
          free = h;
          networked = i;
          inside = j;
          outside = k;
        })
        (λ k. (
          (
            (
              (
                (
                  ((((((((k.os, k.sudo), k.apt), k.systemd), tt), tt), tt), k.disk), k.ram),
                  k.firewall,
                ),
                k.free,
              ),
              k.networked,
            ),
            k.inside,
          ),
          k.outside,
        ))
        (either-Adds _ _ _ _ _ r
          &> either-Adds _ _ _ _ _ _
          &> either-Adds _ _ _ _ _ _
          &> either-Adds _ _ _ _ _ _
          &> warns-Adds _ _ _ _ _ _
          &> warns-Adds _ _ _ _ _ _
          &> warns-Adds _ _ _ _ _ _
          &> either-Adds _ _ _ _ _ _
          &> either-Adds _ _ _ _ _ _
          &> check_firewall-Adds _ _ _ _ _
          &> check_ports-Adds _ _ _ _
          &> either-Adds _ _ _ _ _ _
          &> fail_on-Adds _ _ _ _ _
          &> fail_on-Adds _ _ _ _ _)
