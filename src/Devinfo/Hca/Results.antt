-- ===== src/Devinfo/Hca/Results.antt =====
-- What `print_hca_cap` of rdma-core/devinfo.c returns, and what it prints then.
use ibv_bench.Base.{
  ℕ, zero, suc, ◌≡◌, ◌↔◌, refl, ap, Bool, true, not, ◌&&◌, ◌||◌, List, [], ◌∷◌, ◌++◌, arith, ltb,
  ◌==◌, if◌then◌else◌, map, append-nil,
}
use ibv_bench.Devinfo.Attributes.{Line}
use ibv_bench.Devinfo.Gids.{GidLine, print_all_port_gids-all, lines_of}
use ibv_bench.Devinfo.Hca.{
  Library, Device, Event, opened, closed, port_shown, gid_shown, attribute_shown, port_line,
  device_lines, detail_line, port_body, print_ports, print_device, print_hca_cap,
}

-- The numbers of the ports that are shown, in order.
pub ports_of : List Event → List ℕ
ports_of [] = []
ports_of (port_shown port _ ∷ es) = port ∷ ports_of es
ports_of (_ ∷ es) = ports_of es

-- The ports that the user has asked for, 0 for all, from one number on.
unfoldable pub asked : ℕ → ℕ → ℕ → List ℕ
asked ib_port port zero = []
asked ib_port port (suc left) =
    let rest = asked ib_port (suc port) left in
    if ib_port == 0 then port ∷ rest else if port == ib_port then port ∷ rest else rest

module _ (lib : Library) (verbose : Bool) (d : Device) where
  -- No query of a port fails.
  abbrev pub PortsAnswer : Type 0
  PortsAnswer = (port : ℕ) → (d.ports port).query_rc ≡ 0

  ports_of-append : (xs ys : List Event) → ports_of (xs ++ ys) ≡ ports_of xs ++ ports_of ys
  unfolding ports_of
  ports_of-append [] ys = refl
  ports_of-append (port_shown p ls ∷ xs) ys = ap (λ l. p ∷ l) (ports_of-append xs ys)
  ports_of-append (opened ∷ xs) ys = ports_of-append xs ys
  ports_of-append (_ ∷ xs) ys = ports_of-append xs ys

  print_ports-zero :
      (ib_port port left : ℕ) → PortsAnswer → (print_ports lib verbose d ib_port port left).0 ≡ 0
  unfolding print_ports
  print_ports-zero ib_port port zero h = refl
  print_ports-zero ib_port port (suc left) h =
      ground (arith, h port, print_ports-zero ib_port (suc port) left h)

  -- The device opens and answers, and has the port that was asked for.
  unfoldable pub usable : ℕ → Bool
  usable ib_port = d.open_ok && d.query_ok && (ib_port == 0 || not (ltb d.phys_port_cnt ib_port))

  -- Where no query of a port fails, `print_hca_cap` returns 0 exactly if the device opens, answers,
  -- has the port that was asked for, and closes: also where a query of the GID table has failed and
  -- ended what is printed.
  pub print_hca_cap-zero :
      (ib_port : ℕ)
      → PortsAnswer
      → ((print_hca_cap lib verbose d ib_port).0 ≡ 0) ↔ ((usable ib_port && d.close_ok) ≡ true)
  unfolding print_hca_cap print_device usable
  print_hca_cap-zero ib_port h =
      let none_fails = print_ports-zero ib_port 1 d.phys_port_cnt h in
      (λ e. ground (arith, none_fails), λ e. ground (arith, none_fails))

  -- No query of a GID table fails.
  abbrev pub GidsAnswer : Type 0
  GidsAnswer = (port i : ℕ) → ((d.ports port).table i).query_rc ≡ 0

  gids-no_port : (lines : List GidLine) → ports_of (map gid_shown lines) ≡ []
  unfolding ports_of
  gids-no_port [] = refl
  gids-no_port (l ∷ ls) = gids-no_port ls

  attributes-no_port : (lines : List Line) → ports_of (map attribute_shown lines) ≡ []
  unfolding ports_of
  attributes-no_port [] = refl
  attributes-no_port (l ∷ ls) = attributes-no_port ls

  port_body-shows :
      (port : ℕ)
      → GidsAnswer
      → ((port_body lib verbose d port (d.ports port)).0 ≡ true)
        × (ports_of (port_body lib verbose d port (d.ports port)).1 ≡ port ∷ [])
  unfolding port_body port_line detail_line ports_of
  port_body-shows port h =
      let p = d.ports port in
      let all = print_all_port_gids-all lib.inet_ntop p.link_layer p.table p.gid_tbl_len (h port) in
      let quiet = gids-no_port (lines_of lib.inet_ntop p.link_layer p.table 0 p.gid_tbl_len) in
      (ground (arith, all), ground (arith, all, quiet))

  print_ports-shows :
      (ib_port port left : ℕ)
      → PortsAnswer
      → GidsAnswer
      → ports_of (print_ports lib verbose d ib_port port left).1 ≡ asked ib_port port left
  unfolding print_ports asked
  print_ports-shows ib_port port zero h g = unfold ports_of in refl
  print_ports-shows ib_port port (suc left) h g =
      let (on, one) = port_body-shows port g in
      let rest = print_ports-shows ib_port (suc port) left h g in
      let (_, shown) = port_body lib verbose d port (d.ports port) in
      let joined = ports_of-append shown (print_ports lib verbose d ib_port (suc port) left).1 in
      ground (arith, h port, on, one, rest, joined)

  -- A device that opens and answers, and has the port that was asked for, and where no query of a
  -- port or of a GID table fails: the ports that are shown are exactly those that were asked for, in
  -- ascending order, and the device is opened first and closed last.
  pub print_hca_cap-shows :
      (ib_port : ℕ)
      → usable ib_port ≡ true
      → PortsAnswer
      → GidsAnswer
      → let shown = (print_hca_cap lib verbose d ib_port).1 in
        (ports_of shown ≡ asked ib_port 1 d.phys_port_cnt)
        × ((es : List Event) × (shown ≡ opened ∷ (es ++ (closed ∷ []))))
  unfolding print_hca_cap print_device usable ports_of
  print_hca_cap-shows ib_port ok h g =
      let ports = print_ports-shows ib_port 1 d.phys_port_cnt h g in
      let printed = (print_ports lib verbose d ib_port 1 d.phys_port_cnt).1 in
      let lines = map attribute_shown (device_lines lib verbose d) in
      let last = ports_of-append (lines ++ printed) (closed ∷ []) in
      let first = ports_of-append lines printed in
      let quiet = attributes-no_port (device_lines lib verbose d) in
      (
        ground (arith, ports, last, first, quiet, append-nil (asked ib_port 1 d.phys_port_cnt)),
        ((print_device lib verbose d ib_port).1, ground arith),
      )
