-- ===== src/Tests/Parts.antt =====
-- The parts of one segment of src/layout.rs.
use xshm.Prelude.{refl}
use xshm.Layout.Parts.{Tiles, pointers-Tiles}

pointers-Tiles_example : Tiles 65536
pointers-Tiles_example = pointers-Tiles 65536 refl
