-- ===== src/Navigation/Routes/Dots/Tests.antt =====
-- The address of a cluster whose id is `..`, which a reload does not read as one of that cluster.
use kafka_manager.Base.{◌≡◌, refl, codes}
use kafka_manager.Navigation.Routes.{split}
use kafka_manager.Navigation.Routes.Dots.{resolve_path, resolve}

dots_pushed : resolve_path (codes "/clusters/../topics") ≡ codes "/topics"
unfolding resolve_path resolve split
dots_pushed = refl
