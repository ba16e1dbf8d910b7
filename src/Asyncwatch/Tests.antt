-- ===== src/Asyncwatch/Tests.antt =====
-- The program at fixed events.
use ibv_bench.Base.{◌≡◌, refl, true, none, some, [], ◌∷◌}
use ibv_bench.Base.Text.{codes, text_eq}
use ibv_bench.Rc.Start.{choose_device}
use ibv_bench.Asyncwatch.{
  AsyncEvent, event_name_str, port_err, event, failed, opt_ib_dev, opt_help, printed, acknowledged,
  main,
}

abbrev port_error : AsyncEvent
port_error = record { event_type = port_err; type_number = 10; port_num = 1 }

watches :
    main
      (some (codes "mlx5_0" ∷ []))
      (λ i. true)
      (opt_ib_dev (codes "mlx5_0") ∷ [])
      (event port_error ∷ failed ∷ [])
    ≡ record {
      status = some 1;
      actions = printed (codes "IBV_EVENT_PORT_ERR") 10 1 ∷ acknowledged port_error ∷ [];
    }
unfolding main choose_device text_eq event_name_str
watches = refl

helps : main none (λ i. true) (opt_help ∷ []) [] ≡ record { status = some 0; actions = [] }
unfolding main
helps = refl
